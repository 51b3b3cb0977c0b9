-- ===== src/Preflight/Ready.antt =====
-- When a host is ready for an installation (internal/preflight/preflight.go).
use motekarindo_panel.Base.{
  ◌≡◌, refl, ap, ◌∙◌, ℕ, Bool, true, false, ◌&&◌, ◌||◌, not, List, [], ◌∷◌, map, all, arith, inl,
  inr, Bool-cases, if◌then◌else◌,
}
use motekarindo_panel.Base.Int.{ℤ}
use motekarindo_panel.Base.Sort.{insert_by, sort_by}
use motekarindo_panel.Base.Text.{Text, txt, same}
use motekarindo_panel.Osdetect.{check_support}
use motekarindo_panel.Preflight.{
  SystemFacts, Check, is_fail, blocking_failures, ready, at_least, minimum, boolean, warning,
  normalize_profile, check_size, check_memory, check_swap, check_disk, check_os,
  check_postgresql_plan, check_port, port_le, run, profile_single_user, profile_shared_hosting,
  plan_external, plan_install,
}

-- What a host must have: more memory, disk and swap for shared hosting than for a single user.
pub meets : SystemFacts → Bool
meets facts =
    let single = same facts.profile profile_single_user in
    (check_support facts.os).supported
    && (at_least 1 facts.cpu_cores
        && (at_least (if single then 960 else 2048) facts.ram_mb
            && (at_least (if single then 15 else 20) facts.disk_gb
                && (at_least 1024 facts.swap_mb
                    && (facts.is_root
                        && (facts.has_systemd
                            && ((same facts.postgresql_plan plan_external
                                  || same facts.postgresql_plan plan_install)
                                && all (λ p. p.1) facts.ports_available)))))))

stops : Check → Bool
stops c = c.blocking && is_fail c.status

ready-cons :
    (c : Check) (checks : List Check) → ready (c ∷ checks) ≡ (not (stops c) && ready checks)
unfolding ready blocking_failures stops
ready-cons c checks = elim (Bool-cases (c.blocking && is_fail c.status)) [
  | inl e ↦ rw e refl
  | inr e ↦ rw e refl
]

stops-minimum :
    (name : Text) (got : ℤ) (want : ℕ) (unit : Text)
    → not (stops (minimum name got want unit)) ≡ at_least want got
unfolding stops minimum
stops-minimum name got want unit = elim (Bool-cases (at_least want got)) [
  | inl e ↦ rw e refl
  | inr e ↦ rw e refl
]

stops-boolean :
    (name : Text) (good : Bool) (message : Text) → not (stops (boolean name good message)) ≡ good
unfolding stops boolean
stops-boolean name true message = refl
stops-boolean name false message = refl

stops-warning :
    (name : Text) (least advised : ℕ) (unit : Text) (got : ℤ)
    → not (stops (warning name least advised unit got)) ≡ true
unfolding stops warning
stops-warning name least advised unit got = refl

stops-chosen :
    (single enough plenty x : Bool) (m w s : Check)
    → not (stops m) ≡ enough
    → not (stops w) ≡ true
    → not (stops s) ≡ x
    → not (stops (if single then if not enough then m else if not plenty then w else m else s))
      ≡ (if single then enough else x)
stops-chosen true true true x m w s hm hw hs = hm
stops-chosen true true false x m w s hm hw hs = hw
stops-chosen true false plenty x m w s hm hw hs = hm
stops-chosen false enough plenty x m w s hm hw hs = hs

at_least-if :
    (b : Bool) (n m : ℕ) (got : ℤ)
    → (if b then at_least n got else at_least m got) ≡ at_least (if b then n else m) got
at_least-if true n m got = refl
at_least-if false n m got = refl

stops-check_size :
    (name profile : Text) (single shared advised : ℕ) (unit : Text) (got : ℤ)
    → not (stops (check_size name profile single shared advised unit got))
      ≡ at_least (if same profile profile_single_user then single else shared) got
unfolding check_size
stops-check_size name profile single shared advised unit got =
    let single_here = same profile profile_single_user in
    stops-chosen single_here (at_least single got) (at_least advised got) (at_least shared got) _ _
      _ (stops-minimum name got single unit) (stops-warning name single advised unit got)
      (stops-minimum name got shared unit)
    ∙ at_least-if single_here single shared got

-- The profile is read as one of two.
single_user : same profile_single_user profile_single_user ≡ true
unfolding same
single_user = refl

shared_hosting : same profile_shared_hosting profile_single_user ≡ false
unfolding same
shared_hosting = refl

normalized-single :
    (profile : Text)
    → same (normalize_profile profile) profile_single_user ≡ same profile profile_single_user
unfolding normalize_profile
normalized-single profile = elim (Bool-cases (same profile profile_single_user)) [
  | inl e ↦ rw e single_user
  | inr e ↦ rw e shared_hosting
]

all-insert_by :
    {A : Type 0} (le : A → A → Bool) (p : A → Bool) (x : A) (ys : List A)
    → all p (insert_by le x ys) ≡ (p x && all p ys)
unfolding insert_by
all-insert_by le p x [] = refl
all-insert_by le p x (y ∷ ys) = elim (Bool-cases (le x y)) [
  | inl e ↦ rw e refl
  | inr e ↦ rw (e, all-insert_by le p x ys) (ground arith)
]

all-sort_by :
    {A : Type 0} (le : A → A → Bool) (p : A → Bool) (xs : List A) → all p (sort_by le xs) ≡ all p xs
unfolding sort_by
all-sort_by le p [] = refl
all-sort_by le p (x ∷ xs) =
    all-insert_by le p x (sort_by le xs) ∙ ap (λ b. p x && b) (all-sort_by le p xs)

ready_nothing : ready [] ≡ true
unfolding ready blocking_failures
ready_nothing = refl

ready-ports : (ports : List (ℕ × Bool)) → ready (map check_port ports) ≡ all (λ p. p.1) ports
unfolding check_port
ready-ports [] = ready_nothing
ready-ports (p ∷ ports) =
    ready-cons (check_port p) (map check_port ports)
    ∙ rw (ready-ports ports) (ap (λ b. b && all (λ q. q.1) ports) (stops-boolean _ p.1 _))

stops-os :
    (facts : SystemFacts) → not (stops (check_os facts.os)) ≡ (check_support facts.os).supported
unfolding check_os stops
stops-os facts = elim (Bool-cases (check_support facts.os).supported) [
  | inl e ↦ rw e refl
  | inr e ↦ rw e refl
]

sized :
    (facts : SystemFacts) (n m : ℕ)
    → (if same (normalize_profile facts.profile) profile_single_user then n else m)
      ≡ (if same facts.profile profile_single_user then n else m)
sized facts n m = ap (λ b. if b then n else m) (normalized-single facts.profile)

stops-memory :
    (facts : SystemFacts)
    → not (stops (check_memory (normalize_profile facts.profile) facts.ram_mb))
      ≡ at_least (if same facts.profile profile_single_user then 960 else 2048) facts.ram_mb
unfolding check_memory
stops-memory facts =
    stops-check_size (txt "memory") (normalize_profile facts.profile) 960 2048 2048 (txt "MB RAM")
      facts.ram_mb
    ∙ ap (λ n. at_least n facts.ram_mb) (sized facts 960 2048)

same_sizes : (b : Bool) (n : ℕ) → (if b then n else n) ≡ n
same_sizes true n = refl
same_sizes false n = refl

stops-swap :
    (facts : SystemFacts)
    → not (stops (check_swap (normalize_profile facts.profile) facts.swap_mb))
      ≡ at_least 1024 facts.swap_mb
unfolding check_swap
stops-swap facts =
    stops-check_size (txt "swap") (normalize_profile facts.profile) 1024 1024 2048 (txt "MB swap")
      facts.swap_mb
    ∙ ap (λ n. at_least n facts.swap_mb) (same_sizes _ 1024)

disk :
    (b : Bool) (got : ℤ)
    → not (
        stops (
          if b
          then minimum (txt "disk") got 15 (txt "GB disk")
          else minimum (txt "disk") got 20 (txt "GB disk")))
      ≡ at_least (if b then 15 else 20) got
disk true got = stops-minimum _ got 15 _
disk false got = stops-minimum _ got 20 _

stops-disk :
    (facts : SystemFacts)
    → not (stops (check_disk (normalize_profile facts.profile) facts.disk_gb))
      ≡ at_least (if same facts.profile profile_single_user then 15 else 20) facts.disk_gb
unfolding check_disk
stops-disk facts =
    disk (same (normalize_profile facts.profile) profile_single_user) facts.disk_gb
    ∙ ap (λ n. at_least n facts.disk_gb) (sized facts 15 20)

stops-plan :
    (plan : Text)
    → not (stops (check_postgresql_plan plan)) ≡ (same plan plan_external || same plan plan_install)
unfolding check_postgresql_plan
stops-plan plan = elim (Bool-cases (same plan plan_external || same plan plan_install)) [
  | inl e ↦ rw e (stops-boolean _ true _)
  | inr e ↦ rw e (stops-boolean _ false _)
]

ready-step :
    (c : Check) (checks : List Check) (b r : Bool)
    → not (stops c) ≡ b
    → ready checks ≡ r
    → ready (c ∷ checks) ≡ (b && r)
ready-step c checks b r h k =
    ready-cons c checks ∙ ap (λ x. x && ready checks) h ∙ ap (λ x. b && x) k

-- A host is ready exactly if its system is supported, it has a processor, the memory, disk and swap
-- of its profile, root and systemd, a plan for PostgreSQL, and each port asked for is free.
pub ready-run : (facts : SystemFacts) → ready (run facts) ≡ meets facts
unfolding run meets
ready-run facts = ready-step _ _ _ _ (stops-os facts) (
    ready-step _ _ _ _ (stops-minimum (txt "cpu") facts.cpu_cores 1 (txt "core(s)")) (
      ready-step _ _ _ _ (stops-memory facts) (
        ready-step _ _ _ _ (stops-disk facts) (
          ready-step _ _ _ _ (stops-swap facts) (
            ready-step _ _ _ _ (stops-boolean (txt "root") facts.is_root _) (
              ready-step _ _ _ _ (stops-boolean (txt "systemd") facts.has_systemd _) (
                ready-step _ _ _ _ (stops-plan facts.postgresql_plan) (
                  ready-ports (sort_by port_le facts.ports_available)
                  ∙ all-sort_by port_le (λ p. p.1) facts.ports_available))))))))
