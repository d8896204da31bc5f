-- ===== src/Segment/WellFormed.antt =====
-- Source/SharedMemorySegment.cpp and `wisent::serializer::free`: the map of the segments holds each
-- reference once.
use wisent.Prelude.{
  some_inj, ℕ, suc, ◌<◌, ◌≡◌, ◌≢◌, refl, ◌∙◌, sym, ap, Bool, true, false, Option, none, some, List,
  [], ◌∷◌, Bytes, Result, ok, ◌>>=◌, ◌==◌, ==_iff, ==_self, bytes_eq, bytes_eq_self, eq_of_bytes_eq,
  Bool-cases, inl, inr, if◌then◌else◌, arith,
}
use mathlib.Core.Path.{subst}
use wisent.Segment.Defs.{SharedMemory, Segment, open_segment, erase}
use wisent.Segment.Registry.{
  Entry, Process, find_name, find_entry, set_segment, erase_name, dereference, assign, emplace,
  create_or_get_memory_segment, free_name,
}
use wisent.Segment.Lookup.{Named}
pub mod Freed

-- No entry has the identity.
abbrev pub Unused : (identity : ℕ) → List Entry → Type 0
Unused identity [] = Unit {0}
Unused identity (e ∷ es) = (e.identity ≢ identity) × Unused identity es

abbrev pub Distinct : List Entry → Type 0
Distinct [] = Unit {0}
Distinct (e ∷ es) = Unused e.identity es × Distinct es

abbrev pub Bounded : (next : ℕ) → List Entry → Type 0
Bounded next [] = Unit {0}
Bounded next (e ∷ es) = (e.identity < next) × Bounded next es

-- Identities are not given twice.
pub record WellFormed {Os : Type 0} (p : Process Os) : Type 0 where
  pub distinct : Distinct p.segments
  pub bounded : Bounded p.next_identity p.segments

pub Unused-next : (next : ℕ) (es : List Entry) → Bounded next es → Unused next es
Unused-next next [] b = tt
Unused-next next (e ∷ es) (l, b) = (λ h. omega arith, Unused-next next es b)

pub Bounded-suc : (next : ℕ) (es : List Entry) → Bounded next es → Bounded (suc next) es
Bounded-suc next [] b = tt
Bounded-suc next (e ∷ es) (l, b) = (omega arith, Bounded-suc next es b)

-- The entries keep their identities where a segment changes, and those that stay where a name goes.
module _ (identity : ℕ) (s : Segment) (name : Bytes) where
  abbrev after : List Entry → List Entry
  after es = erase_name name (set_segment identity s es)

  changed-identity :
      (e : Entry)
      → (if e.identity == identity then record e { segment = s } else e).identity ≡ e.identity
  changed-identity e = go (e.identity == identity)
    where
      go : (b : Bool) → (if b then record e { segment = s } else e).identity ≡ e.identity
      go true = refl
      go false = refl

  changed-name :
      (e : Entry)
      → (if e.identity == identity then record e { segment = s } else e).entry_name ≡ e.entry_name
  changed-name e = go (e.identity == identity)
    where
      go : (b : Bool) → (if b then record e { segment = s } else e).entry_name ≡ e.entry_name
      go true = refl
      go false = refl

  after-Unused : (i : ℕ) (es : List Entry) → Unused i es → Unused i (after es)
  unfolding set_segment erase_name
  after-Unused i [] u = tt
  after-Unused i (e ∷ es) (ne, u) = elim (Bool-cases (bytes_eq e.entry_name name)) [
    | inl gone ↦ rw (changed-name e, gone) (after-Unused i es u)
    | inr kept ↦
        rw (changed-name e, kept) (λ h. ne (sym (changed-identity e) ∙ h), after-Unused i es u)
  ]

  pub after-Distinct : (es : List Entry) → Distinct es → Distinct (after es)
  unfolding set_segment erase_name
  after-Distinct [] d = tt
  after-Distinct (e ∷ es) (u, d) = elim (Bool-cases (bytes_eq e.entry_name name)) [
    | inl gone ↦ rw (changed-name e, gone) (after-Distinct es d)
    | inr kept ↦
        rw (changed-name e, kept, changed-identity e)
          (after-Unused e.identity es u, after-Distinct es d)
  ]

  pub after-Bounded : (next : ℕ) (es : List Entry) → Bounded next es → Bounded next (after es)
  unfolding set_segment erase_name
  after-Bounded next [] b = tt
  after-Bounded next (e ∷ es) (l, b) = elim (Bool-cases (bytes_eq e.entry_name name)) [
    | inl gone ↦ rw (changed-name e, gone) (after-Bounded next es b)
    | inr kept ↦ rw (changed-name e, kept, changed-identity e) (l, after-Bounded next es b)
  ]

  -- The name is gone, and no other name has changed its entry.
  pub after-absent : (es : List Entry) → find_name name (after es) ≡ none
  unfolding set_segment erase_name find_name
  after-absent [] = refl
  after-absent (e ∷ es) = elim (Bool-cases (bytes_eq e.entry_name name)) [
    | inl gone ↦ rw (changed-name e, gone) (after-absent es)
    | inr kept ↦ rw (changed-name e, kept) (rw (changed-name e, kept) (after-absent es))
  ]

  pub after-other :
      (k : Bytes) (es : List Entry)
      → bytes_eq name k ≡ false
      → Named identity name es
      → find_name k (after es) ≡ find_name k es
  unfolding set_segment erase_name find_name
  after-other k [] ne own = refl
  after-other k (e ∷ es) ne (named, own) = elim (Bool-cases (bytes_eq e.entry_name name)) [
    | inl gone ↦
        let apart : bytes_eq e.entry_name k ≡ false =
          ap (λ n. bytes_eq n k) (eq_of_bytes_eq e.entry_name name gone) ∙ ne in
        rw (changed-name e, gone, apart) (after-other k es ne own)
    | inr kept ↦ elim (Bool-cases (e.identity == identity)) [
      | inl same ↦ absurd (let e' = sym kept ∙ named ((==_iff e.identity identity).0 same) in cc)
      | inr other ↦
          rw (other, kept)
            (ap (λ rest. if bytes_eq e.entry_name k then some e else rest)
              (after-other k es ne own))
    ]
  ]

Unused-Named :
    (identity : ℕ) (name : Bytes) (es : List Entry) → Unused identity es → Named identity name es
Unused-Named identity name [] u = tt
Unused-Named identity name (e ∷ es) (ne, u) = (λ h. absurd (ne h), Unused-Named identity name es u)

found-Unused :
    (name : Bytes) (i : ℕ) (es : List Entry) (e : Entry)
    → Unused i es
    → find_name name es ≡ some e
    → e.identity ≢ i
unfolding find_name
found-Unused name i [] e u h = cc
found-Unused name i (e' ∷ es) e (ne, u) h =
    go (found-Unused name i es e u) (bytes_eq e'.entry_name name) h
  where
    go :
        (find_name name es ≡ some e → e.identity ≢ i)
        → (b : Bool) → (if b then some e' else find_name name es) ≡ some e
        → e.identity ≢ i
    go others true h = λ same. ne (ap (λ (e : Entry). e.identity) (some_inj h) ∙ same)
    go others false h = others h

-- Where a name has an entry, the entry's identity leads to it, and to no other name.
pub found-name :
    (name : Bytes) (es : List Entry) (e : Entry)
    → Distinct es
    → find_name name es ≡ some e
    → (find_entry e.identity es ≡ some e) × Named e.identity name es
unfolding find_name find_entry
found-name name [] e d h = cc
found-name name (e' ∷ es) e (u, d) h =
    go (found-name name es e d) (bytes_eq e'.entry_name name) refl h
  where
    go :
        (find_name name es ≡ some e
          → (find_entry e.identity es ≡ some e) × Named e.identity name es)
        → (b : Bool) → bytes_eq e'.entry_name name ≡ b
        → (if b then some e' else find_name name es) ≡ some e
        → ((if e'.identity == e.identity then some e' else find_entry e.identity es) ≡ some e)
          × Named e.identity name (e' ∷ es)
    go rest true same h =
        subst
          (λ (e : Entry).
            ((if e'.identity == e.identity then some e' else find_entry e.identity es) ≡ some e)
            × Named e.identity name (e' ∷ es))
          (some_inj h)
          (rw (==_self e'.identity) refl, (λ own. same, Unused-Named e'.identity name es u))
    go rest false other h =
        let (found, own) = rest h in
        let ne = found-Unused name e'.identity es e u h in
        let apart : (e'.identity == e.identity) ≡ false = ground (arith, ne) in
        (rw apart found, (λ same. absurd (ne (sym same)), own))
