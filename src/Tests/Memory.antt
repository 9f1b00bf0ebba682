-- ===== src/Tests/Memory.antt =====
-- Files in memory, as the client's own tests keep them, and what stands beside them.
use obsidian_sync_engine.Base.{
  Text, codes, starts_with, ◌≡◌, refl, Bool, ◌||◌, Option, none, some, [], ◌∷◌, ◌++◌, ◌==◌, filter,
  length, TextMap, ok, err, Ensures, pos, is_empty,
}
use obsidian_sync_engine.Base.Tests.{nat_eq, list_eq}
use obsidian_sync_engine.Base.Map
use obsidian_sync_engine.Base.Map.{get, insert, remove, get-insert}
use obsidian_sync_engine.Error.{Io}
use obsidian_sync_engine.Fs.{SyncFs, PathStat}
use obsidian_sync_engine.Fs.Contents.{or_empty, HasContents, Same, Same-refl}

pub record Disk (G : Type 0) : Type 0 where
  pub files : TextMap Text
  pub others : G

abbrev pub missing_file : Text
missing_file = codes "no such file"

abbrev pub stat_of : Option Text → Option PathStat
stat_of none = none
stat_of (some t) = some (PathStat.file (length t) (pos 0))

abbrev under : Text → Text → Bool
under prefix p = is_empty prefix || p == prefix || starts_with (prefix ++ (b'/' ∷ [])) p

module _ {G : Type 0} where
  abbrev store : Text → Text → Disk G → Disk G
  store p t d = record d { files = insert p t d.files }

  abbrev found : Option Text → Io (Disk G) Text
  found none d = (err missing_file, d)
  found (some t) d = (ok t, d)

  abbrev pub memory_fs : SyncFs (Disk G)
  memory_fs = record {
    read = λ p d. found (get p d.files) d;
    write = λ p t d. (ok tt, store p t d);
    append = λ p t d. (ok tt, store p (or_empty (get p d.files) ++ t) d);
    exists = λ p d. (ok (Map.contains_key p d.files), d);
    stat = λ p d. (ok (stat_of (get p d.files)), d);
    read_binary = λ p d. found (get p d.files) d;
    hash_file = λ p d. found (get p d.files) d;
    write_binary = λ p t d. (ok tt, store p t d);
    remove = λ p d. (ok tt, record d { files = remove p d.files });
    prune_empty_parents = λ p d. (ok tt, d);
    list_files_under = λ p d. (ok (filter (under p) (Map.keys d.files)), d);
  }

  abbrev pub disk_content : Disk G → Text → Option Text
  disk_content d p = get p d.files

  abbrev pub disk_others : Disk G → G
  disk_others d = d.others

  read_case :
      (p : Text) (d : Disk G) (o : Option Text)
      → get p d.files ≡ o
      → Ensures
          (λ t d'. (get p d.files ≡ some t) × Same disk_content disk_others d d')
          (λ _ d'. Same disk_content disk_others d d')
          (found o d)
  read_case p d none e = record { post = Same-refl d }
  read_case p d (some t) e = record { post = (e, Same-refl d) }

  pub memory_fs-HasContents : HasContents disk_content disk_others memory_fs
  memory_fs-HasContents = record {
    on_exists = λ p d. record { post = (refl, Same-refl d) };
    on_read = λ p d. read_case p d (get p d.files) refl;
    on_write = λ p t d. record {
      post = (
        Map.get-insert_self p t d.files,
        record { files = λ q h. Map.get-insert_ne p q t d.files h; others = refl },
      );
    };
    on_append = λ p t d. record {
      post = (
        Map.get-insert_self p _ d.files,
        record { files = λ q h. Map.get-insert_ne p q _ d.files h; others = refl },
      );
    };
  }
