-- ===== src/Tests/Commands.antt =====
-- The command line of rust-client, and `verify` on a file in memory that the server has too.
use obsidian_sync_engine.Base.{
  Text, Bytes, codes, ◌≡◌, refl, ap, sym, ◌∙◌, ◌⊎◌, inr, true, false, Option, none, some, List, [],
  ◌∷◌, ok, err, Ensures, All, TextMap, arith,
}
use obsidian_sync_engine.Base.Tests.{nat_eq, list_eq}
use obsidian_sync_engine.Base.Map.{get, is_some}
use obsidian_sync_engine.Error.{Any, Io, other, remote_file_not_found, is_remote_file_not_found}
use obsidian_sync_engine.Fs.{SyncFs, sha256_hex}
use obsidian_sync_engine.Op.{OpKind, InboxOp}
use obsidian_sync_engine.Engine.State.{Transport}
use obsidian_sync_engine.Cli.{CliRun, run, parse_args}
use obsidian_sync_engine.Cli.Printed.{to_args, parse_args-to_args}
use obsidian_sync_engine.Cli.Verify.{nothing_found, compare_each, verify_all}
use obsidian_sync_engine.Cli.Compared.{Shows, Finds, is_file, compare_each_lem}
use obsidian_sync_engine.Cli.InSync.{IsInSync, verify_all_lem}
use obsidian_sync_engine.Tests.Memory.{Disk, memory_fs, stat_of, missing_file}

abbrev cli : CliRun
cli = record {
  vault = codes "/home/vault";
  allow_seed = false;
  once = true;
  max_deletes = 5;
  max_puts = 600;
  obsidian_guard = false;
}

parse_args-to_args_example : parse_args (codes "USAGE") (to_args (run cli)) ≡ ok (run cli)
parse_args-to_args_example = parse_args-to_args (codes "USAGE") (run cli) (omega arith, omega arith)

abbrev no_digest : Bytes → Bytes
no_digest bytes = bytes

abbrev content : TextMap Text
content = (codes "a.md", codes "hi") ∷ []

-- The lines that were printed stand beside the files.
abbrev Vault : Type 0
Vault = Disk (List Text)

abbrev hash_of : Option Text → Option Text
hash_of none = none
hash_of (some t) = some (sha256_hex no_digest t)

abbrev hash_found : Option Text → Io Vault Text
hash_found none d = (err missing_file, d)
hash_found (some t) d = (ok (sha256_hex no_digest t), d)

abbrev vault_fs : SyncFs Vault
vault_fs = record memory_fs { hash_file = λ p d. hash_found (get p d.files) d }

abbrev served : Text → Option Bytes → Any Vault Bytes
served p none d = (err (remote_file_not_found p), d)
served p (some b) d = (ok b, d)

abbrev ops : List InboxOp
ops =
    record { rev = 1; op = OpKind.delete; path = codes "b.md" }
    ∷ record { rev = 2; op = OpKind.put; path = codes "a.md" }
    ∷ []

abbrev server : Transport Vault
server = record {
  upload = λ p b d. (err (other (codes "refused")), d);
  delete_remote = λ p r d. (err (other (codes "refused")), d);
  download = λ p d. served p (get p content) d;
  fetch_inbox = λ r d. (ok ops, d);
}

abbrev println : Text → Vault → Vault
println t d = record d { others = t ∷ d.others }

abbrev HasContent : Vault → Type 0
HasContent d = d.files ≡ content

abbrev local : Text → Option Text
local p = hash_of (get p content)

abbrev remote : Text → Option Bytes
remote p = get p content

is_file-stat_of : (o : Option Text) → is_file (stat_of o) ≡ is_some (hash_of o)
is_file-stat_of none = refl
is_file-stat_of (some t) = refl

hash_found_lem :
    (o o' : Option Text) (d : Vault)
    → o ≡ o'
    → HasContent d
    → Ensures
        (λ h d'. HasContent d' × (hash_of o' ≡ some h))
        (λ _ d'. HasContent d')
        (hash_found o d)
hash_found_lem none o' d e i = record { post = i }
hash_found_lem (some t) o' d e i = record { post = (i, ap hash_of (sym e)) }

served_lem :
    (p : Text) (o : Option Bytes) (d : Vault)
    → remote p ≡ o
    → HasContent d
    → Ensures
        (λ b d'. HasContent d' × (remote p ≡ some b))
        (λ e d'. HasContent d' × ((is_remote_file_not_found e ≡ false) ⊎ (remote p ≡ none)))
        (served p o d)
served_lem p none d e i = record { post = (i, inr e) }
served_lem p (some b) d e i = record { post = (i, e) }

vault-Shows : Shows no_digest local remote HasContent vault_fs server
vault-Shows = record {
  on_stat = λ p d i. record {
    post = (i, ap (λ m. is_file (stat_of (get p m))) i ∙ is_file-stat_of (get p content));
  };
  on_hash_file = λ p d i. hash_found_lem (get p d.files) (get p content) d (ap (get p) i) i;
  on_download = λ p d i. served_lem p (get p content) d refl i;
}

abbrev vault : Vault
vault = record { files = content; others = [] }

compare_each_lem_example :
    Ensures
      (λ c' d'. HasContent d' × Finds no_digest local remote (codes "a.md" ∷ []) nothing_found c')
      (λ _ d'. HasContent d')
      (compare_each no_digest vault_fs server nothing_found (codes "a.md" ∷ []) vault)
compare_each_lem_example =
    compare_each_lem no_digest local remote HasContent vault_fs server vault-Shows nothing_found
      (codes "a.md" ∷ []) vault refl

verify_all_lem_example :
    Ensures
      (λ _ d'. HasContent d' × All (IsInSync no_digest local remote) ops)
      (λ _ d'. HasContent d')
      (verify_all no_digest vault_fs server println vault)
verify_all_lem_example =
    verify_all_lem no_digest local remote HasContent vault_fs server println (λ t d i. i) ops
      vault-Shows (λ d i. record { post = (i, refl) })
      (record { preserved = λ d i. record { post = i } }) vault refl
