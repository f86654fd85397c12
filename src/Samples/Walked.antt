-- ===== src/Samples/Walked.antt =====
-- A walk over a host that has one file, and the theorems on the accounting at it.
use dotmac_observability.Prelude.{
  ℕ, true, false, ◌==◌, ◌≡◌, refl, none, some, [], ◌∷◌, if◌then◌else◌,
}
use dotmac_observability.Result.{ok}
use dotmac_observability.Attribution.Vault.{poison}
use dotmac_observability.Enumerator.{
  gives, fails, finished, HostSource, Budget, Books, spend_file, spend_bytes, after_read,
  judge_read, read,
}
use dotmac_observability.Enumerator.Walks.{Walk, Walk.begins, Walk.reads}

-- It counts its calls; all but one path are missing.
abbrev host : HostSource ℕ
host = record {
  exists = λ path w. (gives (path == "/etc/crontab"), w);
  list_dir = λ directory w. (fails (some "missing"), w);
  read_text =
      λ path w. (if path == "/etc/crontab" then gives "# none" else fails (some "missing"), w);
  run = λ argv w. (fails none, w);
}

abbrev budget : Budget
budget = record { max_files = 4000; max_bytes = 8_000_000; max_entries = 2000 }

abbrev fresh : Books
fresh = record {
  ledger = record { files = 0; read_bytes = 0; errors = []; exhausted = false };
  vault = [];
}

abbrev after : Books
after = record {
  ledger = record { files = 1; read_bytes = 6; errors = []; exhausted = false };
  vault = "# none" ∷ [];
}

crontab-read :
    (read host budget true "/etc/crontab" fresh 0).0 ≡ finished (ok (some "# none", after))
unfolding read spend_file spend_bytes judge_read after_read poison
crontab-read = refl

walk : Walk host budget fresh after
walk = reads true "/etc/crontab" 0 (some "# none") after begins crontab-read
