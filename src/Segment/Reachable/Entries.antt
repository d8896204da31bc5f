-- ===== src/Segment/Reachable/Entries.antt =====
-- Source/SharedMemorySegment.cpp: what changes of the map of the segments leave as it was.
use wisent.Prelude.{
  ℕ, suc, ◌≡◌, refl, ◌∙◌, sym, ap, Bool, true, false, none, some, List, [], ◌∷◌, Bytes, ◌==◌,
  bytes_eq, eq_of_bytes_eq, Bool-cases, inl, inr, if◌then◌else◌, arith,
}
use wisent.Segment.Defs.{Segment}
use wisent.Segment.Registry.{Entry, find_name, set_segment, erase_name}
use wisent.Segment.WellFormed.{Unused, Distinct, Bounded, Unused-next, Bounded-suc}

-- Each reference leads to one entry; the references that were given are those below `next`.
pub record Consistent (next : ℕ) (es : List Entry) : Type 0 where
  pub distinct : Distinct es
  pub bounded : Bounded next es

-- The name still leads to the same reference.
abbrev pub SameReference : Bytes → (before after : List Entry) → Type 0
SameReference k before after =
    (e : Entry)
    → find_name k before ≡ some e
    → (e' : Entry) × (find_name k after ≡ some e') × (e'.identity ≡ e.identity)

pub same_trans :
    (k : Bytes) (es1 es2 es3 : List Entry)
    → SameReference k es1 es2
    → SameReference k es2 es3
    → SameReference k es1 es3
same_trans k es1 es2 es3 first second e h =
    let (e2, h2, i2) = first e h in let (e3, h3, i3) = second e2 h2 in (e3, h3, i3 ∙ i2)

-- Where the head of both lists has the name or neither has, the rest decides.
same_cons :
    (k : Bytes) (e e' : Entry) (es es' : List Entry)
    → e'.entry_name ≡ e.entry_name
    → e'.identity ≡ e.identity
    → SameReference k es es'
    → SameReference k (e ∷ es) (e' ∷ es')
unfolding find_name
same_cons k e e' es es' name identity rest found h = elim (Bool-cases (bytes_eq e.entry_name k)) [
  | inl is ↦ (e', rw (name, is) refl, identity ∙ ap (λ (e : Entry). e.identity) (head (rw is at h)))
  | inr not ↦ rw (name, not) (rest found (rw not at h))
]
  where
    head : {a b : Entry} → some a ≡ some b → a ≡ b
    head p = cc

-- A segment changes.
module _ (identity : ℕ) (s : Segment) where
  abbrev change : Entry → Entry
  change e = if e.identity == identity then record e { segment = s } else e

  same_identity : (e : Entry) → (change e).identity ≡ e.identity
  same_identity e = go (e.identity == identity)
    where
      go : (b : Bool) → (if b then record e { segment = s } else e).identity ≡ e.identity
      go true = refl
      go false = refl

  same_name : (e : Entry) → (change e).entry_name ≡ e.entry_name
  same_name e = go (e.identity == identity)
    where
      go : (b : Bool) → (if b then record e { segment = s } else e).entry_name ≡ e.entry_name
      go true = refl
      go false = refl

  set-Unused : (i : ℕ) (es : List Entry) → Unused i es → Unused i (set_segment identity s es)
  unfolding set_segment
  set-Unused i [] u = tt
  set-Unused i (e ∷ es) (ne, u) = (λ h. ne (sym (same_identity e) ∙ h), set-Unused i es u)

  set-Distinct : (es : List Entry) → Distinct es → Distinct (set_segment identity s es)
  unfolding set_segment
  set-Distinct [] d = tt
  set-Distinct (e ∷ es) (u, d) =
      rw (same_identity e) (set-Unused e.identity es u, set-Distinct es d)

  set-Bounded :
      (next : ℕ) (es : List Entry) → Bounded next es → Bounded next (set_segment identity s es)
  unfolding set_segment
  set-Bounded next [] b = tt
  set-Bounded next (e ∷ es) (l, b) = rw (same_identity e) (l, set-Bounded next es b)

  pub set-Consistent :
      (next : ℕ) (es : List Entry)
      → Consistent next es
      → Consistent next (set_segment identity s es)
  set-Consistent next es c = record {
    distinct = set-Distinct es c.distinct;
    bounded = set-Bounded next es c.bounded;
  }

  pub set-same : (k : Bytes) (es : List Entry) → SameReference k es (set_segment identity s es)
  unfolding set_segment find_name
  set-same k [] = λ e h. cc
  set-same k (e ∷ es) =
      same_cons k e (change e) es (set_segment identity s es) (same_name e) (same_identity e)
        (set-same k es)

-- A name goes.
module _ (name : Bytes) where
  erase-Unused : (i : ℕ) (es : List Entry) → Unused i es → Unused i (erase_name name es)
  unfolding erase_name
  erase-Unused i [] u = tt
  erase-Unused i (e ∷ es) (ne, u) = elim (Bool-cases (bytes_eq e.entry_name name)) [
    | inl gone ↦ rw gone (erase-Unused i es u)
    | inr kept ↦ rw kept (ne, erase-Unused i es u)
  ]

  pub erase-Consistent :
      (next : ℕ) (es : List Entry) → Consistent next es → Consistent next (erase_name name es)
  unfolding erase_name
  erase-Consistent next [] c = c
  erase-Consistent next (e ∷ es) c =
      let rest =
        erase-Consistent next es (record { distinct = c.distinct.1; bounded = c.bounded.1 }) in
      elim (Bool-cases (bytes_eq e.entry_name name)) [
        | inl gone ↦ rw gone rest
        | inr kept ↦ rw kept (record {
          distinct = (erase-Unused e.identity es c.distinct.0, rest.distinct);
          bounded = (c.bounded.0, rest.bounded);
        })
      ]

  pub erase-same :
      (k : Bytes) (es : List Entry)
      → bytes_eq name k ≡ false
      → SameReference k es (erase_name name es)
  unfolding erase_name find_name
  erase-same k [] ne = λ e h. cc
  erase-same k (e ∷ es) ne = elim (Bool-cases (bytes_eq e.entry_name name)) [
    | inl gone ↦
        let apart : bytes_eq e.entry_name k ≡ false =
          ap (λ n. bytes_eq n k) (eq_of_bytes_eq e.entry_name name gone) ∙ ne in
        rw (gone, apart) (erase-same k es ne)
    | inr kept ↦ rw kept (same_cons k e e es (erase_name name es) refl refl (erase-same k es ne))
  ]

-- A name comes.
module _ (added : Entry) where
  pub add-Consistent :
      (es : List Entry)
      → Consistent added.identity es
      → Consistent (suc added.identity) (added ∷ es)
  add-Consistent es c = record {
    distinct = (Unused-next added.identity es c.bounded, c.distinct);
    bounded = (omega arith, Bounded-suc added.identity es c.bounded);
  }

  pub add-same :
      (k : Bytes) (es : List Entry)
      → find_name added.entry_name es ≡ none
      → SameReference k es (added ∷ es)
  unfolding find_name
  add-same k es absent e h = elim (Bool-cases (bytes_eq added.entry_name k)) [
    | inl is ↦ absurd (
        let same = eq_of_bytes_eq added.entry_name k is in
        let absent' : find_name k es ≡ none = ap (λ n. find_name n es) (sym same) ∙ absent in cc)
    | inr not ↦ (e, rw not h, refl)
  ]
