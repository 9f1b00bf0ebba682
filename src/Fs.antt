-- ===== src/Fs.antt =====
-- rust-client/src/fs.rs: the trait `SyncFs` over an unknown state `S` of the world, and what its
-- documentation promises of the files that hold text.
pub mod Contents
pub mod Disk
pub mod Calls
pub mod Local
pub mod Inbound
pub mod Symlinks
pub mod Listing
pub mod Effects
pub mod Ancestors
pub mod Recover
pub mod Atomic
pub mod Grows
use obsidian_sync_engine.Base.{
  ℕ, ℤ, ◌+◌, ◌/◌, ◌%◌, Text, Bytes, Bool, Option, List, [], ◌∷◌, ltb, if◌then◌else◌,
}
use obsidian_sync_engine.Error.{Io}

pub data PathStat : Type 0 where
  file : (size : ℕ) (mtime_ns : ℤ) → PathStat
  dir : PathStat
  other : PathStat

pub record SyncFs (S : Type 0) : Type 0 where
  pub read : Text → Io S Text
  pub write : Text → Text → Io S (Unit {0})
  pub append : Text → Text → Io S (Unit {0})
  pub exists : Text → Io S Bool
  pub stat : Text → Io S (Option PathStat)
  pub read_binary : Text → Io S Bytes
  pub hash_file : Text → Io S Text
  pub write_binary : Text → Bytes → Io S (Unit {0})
  pub remove : Text → Io S (Unit {0})
  pub prune_empty_parents : Text → Io S (Unit {0})
  pub list_files_under : Text → Io S (List Text)

-- `{b:02x}`
abbrev hex_digit : ℕ → ℕ
hex_digit d = if ltb d 10 then b'0' + d else 87 + d

unfoldable pub to_hex : Bytes → Text
to_hex [] = []
to_hex (b ∷ bytes) = hex_digit (b / 16) ∷ hex_digit (b % 16) ∷ to_hex bytes

-- The crate `sha2` is the parameter `digest`.
unfoldable pub sha256_hex : (Bytes → Bytes) → Bytes → Text
unfolding to_hex
sha256_hex digest bytes = to_hex (digest bytes)
