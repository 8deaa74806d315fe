-- ===== src/Operator/Selected.antt =====
-- Which incidents a listing and a report are about, in propositions, and how many rows there are.
use prefeitura_anti_hack.Prelude.{
  ℕ, suc, ◌≡◌, ◌⊎◌, refl, inl, inr, String, Bool, true, Option, none, some, List, [], ◌∷◌, filter,
  length, ◌==◌, ==→eq, ==-refl, str_eq_iff, str_eq_refl, and_split, Bool-cases, arith,
}
use prefeitura_anti_hack.Prelude.Int.{ℤ, ◌≤ℤ◌, leb_ℤ}
use prefeitura_anti_hack.Prelude.Text.{is_empty}
use prefeitura_anti_hack.Prelude.Runtime.{Runtime}
use prefeitura_anti_hack.Domain.{TimeValue}
use prefeitura_anti_hack.Correlation.Key.{instant}
use prefeitura_anti_hack.Incident.{severity_value}
use prefeitura_anti_hack.Correlation.Store.{IncidentModel}
use prefeitura_anti_hack.Operator.{
  IncidentFilter, status_value, matches, not_before, not_after, selects,
}

-- as many of the rows as P holds of
pub data Counted {A : Type 0} (P : A → Type 0) : List A → ℕ → Type 0 where
  no_rows : Counted P [] 0
  counts : {a : A} {rows : List A} {n : ℕ} → P a → Counted P rows n → Counted P (a ∷ rows) (suc n)
  skips : {a : A} {rows : List A} {n : ℕ} → ¬ P a → Counted P rows n → Counted P (a ∷ rows) n

pub length-filter-Counted :
    {A : Type 0} (P : A → Type 0) (p : A → Bool)
    → ((a : A) → p a ≡ true → P a)
    → ((a : A) → P a → p a ≡ true)
    → (rows : List A) → Counted P rows (length (filter p rows))
length-filter-Counted P p sound complete [] = no_rows
length-filter-Counted P p sound complete (a ∷ rows) =
    let rest = length-filter-Counted P p sound complete rows in
    elim (Bool-cases (p a)) [
      | inl h ↦ rw h (counts (sound a h) rest)
      | inr h ↦ rw h (skips (λ q. absurd (let t = complete a q in ground (arith, h, t))) rest)
    ]

module _ (rt : Runtime) where
  -- a filter that is given and not empty, whatever the case of its letters
  abbrev pub Agrees : Option String → String → Type 0
  Agrees none column = Unit
  Agrees (some wanted) column = (is_empty wanted ≡ true) ⊎ (rt.lower column ≡ rt.lower wanted)

  abbrev pub From : Option ℤ → ℤ → Type 0
  From none t = Unit
  From (some bound) t = bound ≤ℤ t

  abbrev pub UpTo : Option ℤ → ℤ → Type 0
  UpTo none t = Unit
  UpTo (some bound) t = t ≤ℤ bound

  -- what the filters say of a tenant, a status, a severity and an instant
  pub record Wanted (tenant : ℕ) (f : IncidentFilter) (owner : ℕ) (status severity : String)
      (created : ℤ) : Type 0 where
    pub owned : owner ≡ tenant
    pub by_status : Agrees f.status_filter status
    pub by_severity : Agrees f.severity_filter severity
    pub from : From f.created_from created
    pub up_to : UpTo f.created_to created

  abbrev pub WantedRow : ℕ → IncidentFilter → IncidentModel → Type 0
  WantedRow tenant f m =
      Wanted tenant f m.tenant_id (status_value m.status) (severity_value m.severity)
        (instant m.created_at)

  matches-Agrees : (o : Option String) (c : String) → matches rt o c ≡ true → Agrees o c
  matches-Agrees none c h = tt
  matches-Agrees (some w) c h = elim (Bool-cases (is_empty w)) [
    | inl e ↦ inl e
    | inr e ↦ inr ((str_eq_iff _ _).0 (ground (arith, e, h)))
  ]

  Agrees-matches : (o : Option String) (c : String) → Agrees o c → matches rt o c ≡ true
  Agrees-matches none c h = refl
  Agrees-matches (some w) c (inl e) = ground (arith, e)
  Agrees-matches (some w) c (inr e) = ground (arith, e, str_eq_refl (rt.lower w))

  leb_ℤ-sound : (a b : ℤ) → leb_ℤ a b ≡ true → a ≤ℤ b
  leb_ℤ-sound a b h = ground (arith, h)

  leb_ℤ-complete : (a b : ℤ) → a ≤ℤ b → leb_ℤ a b ≡ true
  leb_ℤ-complete a b h = ground (arith, h)

  not_before-From : (o : Option ℤ) (t : TimeValue) → not_before rt o t ≡ true → From o (instant t)
  not_before-From none t h = tt
  not_before-From (some b) t h = leb_ℤ-sound b (instant t) h

  From-not_before : (o : Option ℤ) (t : TimeValue) → From o (instant t) → not_before rt o t ≡ true
  From-not_before none t h = refl
  From-not_before (some b) t h = leb_ℤ-complete b (instant t) h

  not_after-UpTo : (o : Option ℤ) (t : TimeValue) → not_after rt o t ≡ true → UpTo o (instant t)
  not_after-UpTo none t h = tt
  not_after-UpTo (some b) t h = leb_ℤ-sound (instant t) b h

  UpTo-not_after : (o : Option ℤ) (t : TimeValue) → UpTo o (instant t) → not_after rt o t ≡ true
  UpTo-not_after none t h = refl
  UpTo-not_after (some b) t h = leb_ℤ-complete (instant t) b h

  pub selects-WantedRow :
      (tenant : ℕ) (f : IncidentFilter) (m : IncidentModel)
      → selects rt tenant f m ≡ true
      → WantedRow tenant f m
  selects-WantedRow tenant f m h =
      let (a, b) = and_split (m.tenant_id == tenant) _ h in
      let (c, d) = and_split (matches rt f.status_filter (status_value m.status)) _ b in
      let (e, g) = and_split (matches rt f.severity_filter (severity_value m.severity)) _ d in
      let (i, j) = and_split (not_before rt f.created_from m.created_at) _ g in
      record {
        owned = ==→eq _ _ a;
        by_status = matches-Agrees f.status_filter _ c;
        by_severity = matches-Agrees f.severity_filter _ e;
        from = not_before-From f.created_from _ i;
        up_to = not_after-UpTo f.created_to _ j;
      }

  pub WantedRow-selects :
      (tenant : ℕ) (f : IncidentFilter) (m : IncidentModel)
      → WantedRow tenant f m
      → selects rt tenant f m ≡ true
  WantedRow-selects tenant f m w = ground (
    arith,
    w.owned,
    ==-refl tenant,
    Agrees-matches f.status_filter (status_value m.status) w.by_status,
    Agrees-matches f.severity_filter (severity_value m.severity) w.by_severity,
    From-not_before f.created_from m.created_at w.from,
    UpTo-not_after f.created_to m.created_at w.up_to,
  )
