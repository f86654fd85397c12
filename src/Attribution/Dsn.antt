-- ===== src/Attribution/Dsn.antt =====
-- `parse_dsn`. `urlsplit` and `unquote` of urllib are arguments; reading a port may raise.
use Prim.Native.String.{◌++◌ as ◌<>◌}
use Prim.Native.Char.{code}
use mathlib.Core.Path.{subst}
use dotmac_observability.Prelude.{
  ℕ, pos, String, true, false, not, ◌&&◌, ◌==◌, ◌≡◌, ◌≢◌, refl, sym, ◌∙◌, inl, inr, arith, eq_iff,
  eqb, Option, none, some, List, contains, Bool-cases, if◌then◌else◌,
}
use dotmac_observability.Result.{Result, ok, raised, value_error, Result-cases, ok-injective, ◌>>=◌}
use dotmac_observability.Yaml.{decimal}
use dotmac_observability.Attribution.Vault.{poison}

-- What `urlsplit` gives: `split.port` is computed when it is read.
pub record SplitUrl : Type 0 where
  pub hostname : Option String
  pub port : Result (Option ℕ)
  pub username : Option String
  pub password : Option String
  pub path : String

pub record Target : Type 0 where
  pub target_id : String
  pub host : String
  pub port : ℕ
  pub user : String
  pub database : String

-- `x or ""`, `x or 0`.
abbrev pub or_empty : Option String → String
or_empty none = ""
or_empty (some s) = s

abbrev pub or_zero : Option ℕ → ℕ
or_zero none = 0
or_zero (some n) = n

-- `lstrip("/")`
lstrip_slash : String → String
lstrip_slash String.[] = ""
lstrip_slash (String.◌∷◌ c s) =
    let rest = lstrip_slash s in if eqb (code c) b'/' then rest else String.◌∷◌ c s

-- `f"{host}:{port}"`
unfoldable pub poison_pair : Target → List String → List String
unfolding poison
poison_pair t vault =
    if not (t.host == "") && not (eqb t.port 0)
    then poison (some (t.host <> ":" <> decimal (pos t.port))) vault
    else vault

module _ (urlsplit : String → Result SplitUrl) (unquote : String → String) where
  -- The body of the `try`, but for the poisoning of the password.
  unfoldable pub split_dsn : String → String → Result (Target × Option String)
  unfolding lstrip_slash
  split_dsn raw target_id = do
    split ← urlsplit raw
    port ← split.port
    ok (
      record {
        target_id = target_id;
        host = or_empty split.hostname;
        port = or_zero port;
        user = unquote (or_empty split.username);
        database = unquote (lstrip_slash split.path);
      },
      split.password,
    )

  -- The result, and the vault after the call.
  unfoldable pub parse_dsn : String → String → List String → Result Target × List String
  unfolding split_dsn poison_pair
  parse_dsn raw target_id vault = elim (split_dsn raw target_id) [
    | raised e ↦ (raised value_error, poison (some raw) vault)
    | ok parsed ↦
        let (t, password) = parsed in
        (
          ok t,
          poison_pair t (
              poison (some t.database) (
                poison (some t.user)
                  (poison (some t.host) (poison password (poison (some raw) vault))))),
        )
  ]

-- A value that is not empty is in the vault.
abbrev pub Held : String → List String → Type 0
Held s vault = s ≢ "" → contains s vault ≡ true

poison-keeps :
    (v : Option String) (s : String) (vault : List String)
    → contains s vault ≡ true
    → contains s (poison v vault) ≡ true
unfolding poison
poison-keeps none s vault h = h
poison-keeps (some v) s vault h = elim (Bool-cases (v == "")) [
  | inl empty ↦ rw empty h
  | inr full ↦ elim (Bool-cases (contains v vault)) [
    | inl old ↦ rw (full, old) h
    | inr new ↦ rw (full, new) (ground (arith, h))
  ]
]

poison-Held : (s : String) (vault : List String) → Held s (poison (some s) vault)
unfolding poison
poison-Held s vault n = elim (Bool-cases (contains s vault)) [
  | inl old ↦ rw ((not_empty s n), old) old
  | inr new ↦ rw ((not_empty s n), new) (ground (arith, eq_iff s s))
]
  where
    not_empty : (s : String) → s ≢ "" → (s == "") ≡ false
    not_empty s n = ground (arith, eq_iff s "", n)

password-Held : (p : Option String) (vault : List String) → Held (or_empty p) (poison p vault)
unfolding poison
password-Held none vault n = absurd (n refl)
password-Held (some p) vault n = poison-Held p vault n

poison_pair-keeps :
    (t : Target) (s : String) (vault : List String)
    → contains s vault ≡ true
    → contains s (poison_pair t vault) ≡ true
unfolding poison_pair
poison_pair-keeps t s vault h = elim (Bool-cases (not (t.host == "") && not (eqb t.port 0))) [
  | inl both ↦ rw both (poison-keeps (some (t.host <> ":" <> decimal (pos t.port))) s vault h)
  | inr other ↦ rw other h
]

-- Of a text and its parts, poisoned one after the other.
abbrev poison_all : String → Target → Option String → List String → List String
poison_all raw t password vault = poison_pair t (
    poison (some t.database)
      (poison (some t.user) (poison (some t.host) (poison password (poison (some raw) vault)))))

abbrev pub PartsHeld : List String → Target × Option String → Type 0
PartsHeld after (t, password) =
    Held t.host after × Held t.user after × Held t.database after × Held (or_empty password) after

poison_all-Held :
    (raw : String) (t : Target) (password : Option String) (vault : List String)
    → ((s : String) → contains s vault ≡ true → contains s (poison_all raw t password vault) ≡ true)
      × Held raw (poison_all raw t password vault)
      × PartsHeld (poison_all raw t password vault) (t, password)
poison_all-Held raw t password vault =
    let v1 = poison (some raw) vault in
    let v2 = poison password v1 in
    let v3 = poison (some t.host) v2 in
    let v4 = poison (some t.user) v3 in
    let v5 = poison (some t.database) v4 in
    let from4 : (s : String) → contains s v4 ≡ true → contains s (poison_pair t v5) ≡ true =
      λ s h. poison_pair-keeps t s v5 (poison-keeps (some t.database) s v4 h) in
    let from3 : (s : String) → contains s v3 ≡ true → contains s (poison_pair t v5) ≡ true =
      λ s h. from4 s (poison-keeps (some t.user) s v3 h) in
    let from2 : (s : String) → contains s v2 ≡ true → contains s (poison_pair t v5) ≡ true =
      λ s h. from3 s (poison-keeps (some t.host) s v2 h) in
    let from1 : (s : String) → contains s v1 ≡ true → contains s (poison_pair t v5) ≡ true =
      λ s h. from2 s (poison-keeps password s v1 h) in
    (
      λ s h. from1 s (poison-keeps (some raw) s vault h),
      λ n. from1 raw (poison-Held raw vault n),
      (
        λ n. from3 t.host (poison-Held t.host v2 n),
        λ n. from4 t.user (poison-Held t.user v3 n),
        λ n. poison_pair-keeps t t.database v5 (poison-Held t.database v4 n),
        λ n. from2 (or_empty password) (password-Held password v1 n),
      ),
    )

module _ (urlsplit : String → Result SplitUrl) (unquote : String → String) where
  -- What a call leaves in the vault: what was there, the text itself, and each part of it that is
  -- not empty.
  pub record Poisoned (raw target_id : String) (vault after : List String) : Type 0 where
    pub kept : (s : String) → contains s vault ≡ true → contains s after ≡ true
    pub whole : Held raw after
    pub parts :
        (t : Target) (password : Option String)
        → split_dsn urlsplit unquote raw target_id ≡ ok (t, password)
        → PartsHeld after (t, password)

  -- Whatever urlsplit and unquote do, after parse_dsn, whether it returns or raises, the vault
  -- holds what it held before and the text itself if it is not empty, and, where the text could be
  -- split, the host, the user, the database and the password that were split off, each if it is
  -- not empty.
  pub parse_dsn-Poisoned :
      (raw target_id : String) (vault : List String)
      → Poisoned raw target_id vault (parse_dsn urlsplit unquote raw target_id vault).1
  unfolding parse_dsn
  parse_dsn-Poisoned raw target_id vault =
      elim (Result-cases (split_dsn urlsplit unquote raw target_id)) [
        | inr (e, p) ↦
            rw (p, parse_dsn)
              (record {
                kept = λ s h. poison-keeps (some raw) s vault h;
                whole = poison-Held raw vault;
                parts = λ t password q. absurd (cc (p, q));
              })
        | inl (parsed, p) ↦
            let (t, password) = parsed in
            let (kept, whole, held) = poison_all-Held raw t password vault in
            rw (p, parse_dsn)
              (record {
                kept = kept;
                whole = whole;
                parts = λ t' password' q.
                    subst (PartsHeld (poison_all raw t password vault)) (ok-injective (sym p ∙ q))
                      held;
              })
      ]
