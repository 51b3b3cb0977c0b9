-- ===== src/Database/Files/Sorted.antt =====
-- What `LoadMigrations` returns (internal/database/migration.go).
use motekarindo_panel.Base.{
  ◌≡◌, refl, sym, subst, ℕ, false, Option, none, some, List, [], ◌∷◌, arith, inl, inr, Bool-cases,
  Option-cases,
}
use motekarindo_panel.Base.Sort.{sort_by, Chain}
use motekarindo_panel.Base.Text.{Text, is_empty, trim_space}
use motekarindo_panel.Base.Text.Decimal.{atoi}
use motekarindo_panel.Base.Error.{Error, Result, Result-cases, ok, err, ok-injective}
use motekarindo_panel.Database.{Migration}
use motekarindo_panel.Database.Files.{
  Entry, version_of, seen_as, put_first, after_read, after_seen, script_name, load_entries,
  version_le, load_migrations,
}
use motekarindo_panel.Database.Files.Distinct.{
  AreDistinct, AreFresh, version_lt, sort_by-Chain, AreFresh-cons,
}

module _ (quote : Text → Text) (out_of_range : Text → Error) (read : Text → Result Text) where
  -- The migration is that of the entry.
  pub record IsLoaded (entry : Entry) (m : Migration) : Type 0 where
    pub digits : Text
    pub content : Text
    pub has_name : script_name entry ≡ some (digits, m.name)
    pub has_number : version_of (atoi digits) ≡ some m.version
    pub has_path : m.path ≡ entry.name
    pub is_read : read entry.name ≡ ok content
    pub has_sql : m.sql ≡ trim_space content
    pub is_filled : is_empty m.sql ≡ false

  -- The migrations are those of the entries that are files with the name of a script, in their order.
  pub data Loads : List Entry → List Migration → Type 0 where
    no_entries : Loads [] []
    skipped :
        {entry : Entry} {entries : List Entry} {ms : List Migration}
        → script_name entry ≡ none
        → Loads entries ms
        → Loads (entry ∷ entries) ms
    loaded :
        {entry : Entry} {entries : List Entry} {m : Migration} {ms : List Migration}
        → IsLoaded entry m
        → Loads entries ms
        → Loads (entry ∷ entries) (m ∷ ms)

  -- What the loop shows of its migrations, given the versions seen before.
  abbrev IsListed : List (ℕ × Text) → List Entry → List Migration → Type 0
  IsListed seen entries ms = Loads entries ms × AreFresh seen ms × AreDistinct ms

  IsListed-loaded :
      (seen : List (ℕ × Text)) (entry : Entry) (entries : List Entry) (m : Migration)
      (ms : List Migration)
      → IsLoaded entry m
      → seen_as m.version seen ≡ none
      → IsListed ((m.version, entry.name) ∷ seen) entries ms
      → IsListed seen (entry ∷ entries) (m ∷ ms)
  unfolding AreFresh AreDistinct
  IsListed-loaded seen entry entries m ms here absent (loads, fresh, distinct) =
      let (other, before) = AreFresh-cons m.version entry.name seen ms fresh in
      (loaded here loads, (absent, before), (other, distinct))

  put_first-eq-ok :
      (m : Migration) (x : Result (List Migration)) (ms : List Migration)
      → put_first m x ≡ ok ms
      → (rest : List Migration) × (x ≡ ok rest) × (m ∷ rest ≡ ms)
  put_first-eq-ok m (err e) ms h = absurd (ground (arith, h))
  put_first-eq-ok m (ok rest) ms h = (rest, refl, ok-injective h)

  after_read-eq-ok :
      (name label : Text) (version : ℕ) (next : Result (List Migration)) (x : Result Text)
      (ms : List Migration)
      → after_read quote out_of_range read name label version next x ≡ ok ms
      → (content : Text) × (rest : List Migration) × (x ≡ ok content)
        × (is_empty (trim_space content) ≡ false)
        × (next ≡ ok rest)
        × (record { version = version; name = label; path = name; sql = trim_space content } ∷ rest
            ≡ ms)
  after_read-eq-ok name label version next (err e) ms h = absurd (ground (arith, h))
  after_read-eq-ok name label version next (ok content) ms h =
      elim (Bool-cases (is_empty (trim_space content))) [
        | inl e ↦ absurd (ground (arith, rw e at h))
        | inr e ↦
            let (rest, n, q) = put_first-eq-ok _ next ms (rw e at h) in
            (content, rest, refl, e, n, q)
      ]

  after_seen-eq-ok :
      (name label : Text) (version : ℕ) (next : Result (List Migration)) (o : Option Text)
      (ms : List Migration)
      → after_seen quote out_of_range read name label version next o ≡ ok ms
      → (o ≡ none)
        × (after_read quote out_of_range read name label version next (read name) ≡ ok ms)
  after_seen-eq-ok name label version next none ms h = (refl, h)
  after_seen-eq-ok name label version next (some previous) ms h = absurd (ground (arith, h))

  load_entries-IsListed :
      (seen : List (ℕ × Text)) (entries : List Entry) (ms : List Migration)
      → load_entries quote out_of_range read seen entries ≡ ok ms
      → IsListed seen entries ms
  unfolding load_entries AreFresh AreDistinct
  load_entries-IsListed seen [] ms h =
      subst (IsListed seen []) (ok-injective h) (no_entries, tt, tt)
  load_entries-IsListed seen (entry ∷ entries) ms h = elim (Option-cases (script_name entry)) [
    | inl e ↦
        let (loads, fresh, distinct) = load_entries-IsListed seen entries ms (rw e at h) in
        (skipped e loads, fresh, distinct)
    | inr ((digits, label), e) ↦ elim (Option-cases (version_of (atoi digits))) [
      | inl v ↦ absurd (ground (arith, rw (e, v) at h))
      | inr (version, v) ↦
          let next = load_entries quote out_of_range read ((version, entry.name) ∷ seen) entries in
          let (absent, h1) =
            after_seen-eq-ok entry.name label version next (seen_as version seen) ms
              (rw (e, v) at h) in
          let (content, rest, r, filled, n, q) =
            after_read-eq-ok entry.name label version next (read entry.name) ms h1 in
          subst (IsListed seen (entry ∷ entries)) q (
            IsListed-loaded seen entry entries _ rest
              (record {
                digits = digits;
                content = content;
                has_name = e;
                has_number = v;
                has_path = refl;
                is_read = r;
                has_sql = refl;
                is_filled = filled;
              })
              absent (load_entries-IsListed ((version, entry.name) ∷ seen) entries rest n))
    ]
  ]

  -- `LoadMigrations` that returns gives, in the order of strictly increasing versions, just the
  -- migrations of the entries that are files with the name of a script, each with the number and the
  -- label of its name and the trimmed text of its file, which is not empty.
  pub load_migrations-Chain :
      (entries : List Entry) (ms : List Migration)
      → load_migrations quote out_of_range read (ok entries) ≡ ok ms
      → Chain version_lt ms
        × ((found : List Migration) × Loads entries found × (ms ≡ sort_by version_le found))
  unfolding load_migrations
  load_migrations-Chain entries ms h =
      elim (Result-cases (load_entries quote out_of_range read [] entries)) [
        | inr (x, e) ↦ absurd (ground (arith, rw e at h))
        | inl (found, e) ↦
            let (loads, fresh, distinct) = load_entries-IsListed [] entries found e in
            let q = ok-injective (rw e at h) in
            (subst (Chain version_lt) q (sort_by-Chain found distinct), (found, loads, sym q))
      ]
