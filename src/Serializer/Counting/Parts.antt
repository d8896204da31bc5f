-- ===== src/Serializer/Counting/Parts.antt =====
-- Source/WisentSerializer.cpp: the first traversal on the parts of a document, given that it counts the
-- parts of these.
use wisent.Prelude.{
  lengths, ℕ, zero, suc, ◌+◌, ◌^◌, ◌≤◌, ◌<◌, ◌≡◌, ◌≢◌, refl, ◌∙◌, sym, ap, Bool, true, false,
  Option, List, [], ◌∷◌, ◌++◌, Bytes, arith, length, Result, ok, set, lt→ltb, ◌==◌, append_assoc,
  length-append, length-set, Bool-cases, ==_iff, inl, inr,
}
use wisent.Json.{ParseEvent, key, value}
use wisent.Csv.{Environment}
use wisent.Serializer.JsonToWisent.{set_elem}
use wisent.Serializer.FirstPass.{
  Counter, prepare, open_layer, close_layer, count_value, callback, parse,
}
use wisent.Serializer.Tree.{
  Tree, Forest, nil, cons, expression, expressions, expressions_forest, depth, depth_forest,
}
use wisent.Serializer.Counting.{counted, counted_forest, present, raise, entry, present-counted}
use wisent.Serializer.Counting.Steps.{state, flag_of, Grows, grow_keys, flag_of-set_ne}
use wisent.Serializer.Counting.Traversal.{
  below, counter-eq, counted-below, done, grown, opened, Closed, set-Closed, run, step, value_step,
  container_end,
}
pub mod Flags
use wisent.Serializer.Counting.Parts.Flags.{
  Same, Closed-after, Closed-Same, Same-trans, member-Same, flag_of-set-true,
}

module _ (env : Environment) (csv_prefix : Bytes) (disable_csv_handling : Bool) where
  abbrev Run : Counter → List (ℕ × ParseEvent) → Result Counter
  Run = run env csv_prefix disable_csv_handling

  abbrev Step : Counter → ℕ → ParseEvent → Result Counter
  Step = step env csv_prefix disable_csv_handling

  -- The events of a value at a depth count its tree.
  abbrev pub Counts : (ℕ → List (ℕ × ParseEvent)) → Tree → Type 0
  Counts evs t =
      (d count : ℕ) (front rs : List ℕ) (keys : List Bool)
      → d ≤ length keys
      → 1 ≤ length keys
      → ((k : ℕ) → d < k → flag_of keys k ≡ false)
      → length front + suc (depth t) < 2 ^ 64
      → (flag_of keys d ≡ true → 1 ≤ length front)
      → (keys' : List Bool) × ((rest : List (ℕ × ParseEvent))
          → Run (state count front rs keys) (evs d ++ rest)
            ≡ Run (done (count + expressions t) front (counted t rs) (flag_of keys d) keys') rest)
        × Closed keys keys' d

  abbrev pub CountsAll : (ℕ → List (ℕ × ParseEvent)) → Forest → Type 0
  CountsAll evs ts =
      (d count : ℕ) (front rs : List ℕ) (keys : List Bool)
      → d ≤ length keys
      → 1 ≤ length keys
      → ((k : ℕ) → d ≤ k → flag_of keys k ≡ false)
      → length front + suc (depth_forest ts) < 2 ^ 64
      → (keys' : List Bool) × ((rest : List (ℕ × ParseEvent))
          → Run (state count front rs keys) (evs d ++ rest)
            ≡ Run (state (count + expressions_forest ts) front (counted_forest ts rs) keys') rest)
        × Same keys keys'

  pub nil-CountsAll : CountsAll (λ d. []) nil
  nil-CountsAll d count front rs keys inside one clear few = (
    keys,
    λ rest.
        ap (λ c. Run (state c front rs keys) rest) (let e : count ≡ count + 0 = omega arith in e),
    record { longer = omega arith; same = λ k. refl },
  )

  pub value-Counts :
      (text : Option Bytes) (t : Tree)
      → ((count : ℕ) (front rs : List ℕ) (keys : List Bool)
          → count_value env csv_prefix disable_csv_handling (state count front (raise rs) keys) text
            ≡ ok (state (count + expressions t) front (counted t rs) keys))
      → Counts (λ d. (d, value text) ∷ []) t
  unfolding parse
  value-Counts text t counts d count front rs keys inside one clear few member = (
    set (grown keys d) d false,
    λ rest.
        rw
          (value_step env csv_prefix disable_csv_handling text count (count + expressions t) front
            rs (counted t rs) keys d (counts count front rs (grown keys d)) inside one (omega arith)
            member)
          refl,
    set-Closed keys (grown keys d) d (grow_keys keys d inside one),
  )

  -- A value that is no name of a CSV file.
  pub leaf-Counts :
      (text : Option Bytes) (t : Tree)
      → ((c : Counter) → count_value env csv_prefix disable_csv_handling c text ≡ ok c)
      → expressions t ≡ 0
      → ((rs : List ℕ) → counted t rs ≡ raise rs)
      → Counts (λ d. (d, value text) ∷ []) t
  leaf-Counts text t plain leaf raises = value-Counts text t (λ count front rs keys.
      plain (state count front (raise rs) keys)
      ∙ ap (λ n. ok (state n front (raise rs) keys))
          (let e : count ≡ count + expressions t = omega (arith, leaf) in e)
      ∙ ap (λ l. ok (state (count + expressions t) front l keys)) (sym (raises rs)))

  bracket :
      (c c1 c2 c3 : Counter) (d : ℕ) (start stop : ParseEvent) (evs : List (ℕ × ParseEvent))
      → Step c d start ≡ ok c1
      → ((rest : List (ℕ × ParseEvent)) → Run c1 (evs ++ rest) ≡ Run c2 rest)
      → Step c2 d stop ≡ ok c3
      → (rest : List (ℕ × ParseEvent))
      → Run c (((d, start) ∷ (evs ++ (d, stop) ∷ [])) ++ rest) ≡ Run c3 rest
  unfolding parse
  bracket c c1 c2 c3 d start stop evs h1 inner h3 rest =
      rw (h1, append_assoc evs ((d, stop) ∷ []) rest, inner ((d, stop) ∷ rest), h3) refl

  pub container-Counts :
      (start stop : ParseEvent) (head : Bytes) (evs : ℕ → List (ℕ × ParseEvent)) (ts : Forest)
      → ((c : Counter) (d : ℕ) → Step c d start ≡ open_layer (prepare c d))
      → ((c : Counter) (d : ℕ) → Step c d stop ≡ close_layer (prepare c d) d)
      → CountsAll evs ts
      → Counts (λ d. (d, start) ∷ (evs (suc d) ++ (d, stop) ∷ [])) (expression head ts)
  container-Counts start stop head evs ts starts stops all d count front rs keys inside one clear
        few member =
      let g = grow_keys keys d inside one in
      let (keys2, inner, s) =
        all (suc d) (suc count) (front ++ suc (entry rs 0) ∷ []) (below rs) (grown keys d) g.inside
          (omega (arith, g.longer)) (λ k h. g.same k ∙ clear k (omega arith)) (grind lengths) in
      let same : flag_of keys2 d ≡ flag_of keys d = s.same d ∙ g.same d in
      let inside2 : d ≤ length keys2 = omega (arith, g.inside, s.longer) in
      let one2 : 1 ≤ length keys2 = omega (arith, g.longer, s.longer) in
      (
        set (grown keys2 d) d false,
        λ rest.
            bracket _ _ _ _ d start stop (evs (suc d))
              (starts (state count front rs keys) d ∙ opened count front rs keys d) inner
              (stops _ d
                ∙ container_end env csv_prefix disable_csv_handling
                    (suc count + expressions_forest ts) (suc (entry rs 0)) front
                    (counted_forest ts (below rs)) keys keys2 d same inside2 one2 (omega arith)
                    member)
              rest
            ∙ (ap
                  (λ n.
                    Run
                      (done n front (suc (entry rs 0) ∷ present (counted_forest ts (below rs)))
                        (flag_of keys d) (set (grown keys2 d) d false))
                      rest)
                  (let e : suc count + expressions_forest ts ≡ count + suc (expressions_forest ts) =
                      omega arith in
                    e)
                ∙ ap
                    (λ t.
                      Run
                        (done (count + suc (expressions_forest ts)) front t (flag_of keys d)
                          (set (grown keys2 d) d false))
                        rest)
                    (sym (counted-below head ts rs))),
        Closed-after keys (grown keys d) keys2 _ d g s
            (set-Closed keys2 (grown keys2 d) d (grow_keys keys2 d inside2 one2)),
      )

  pub append-CountsAll :
      (first evs : ℕ → List (ℕ × ParseEvent)) (t : Tree) (ts : Forest)
      → CountsAll first (cons t nil)
      → CountsAll evs ts
      → CountsAll (λ d. first d ++ evs d) (cons t ts)
  append-CountsAll first evs t ts one_counts all d count front rs keys inside one clear few =
      let (keys1, run1, s1) = one_counts d count front rs keys inside one clear (omega arith) in
      let (keys2, run2, s2) =
        all d (count + (expressions t + 0)) front (counted t rs) keys1 (omega (arith, s1.longer))
          (omega (arith, s1.longer)) (λ k h. s1.same k ∙ clear k h) (omega arith) in
      (
        keys2,
        λ rest.
            ap (Run (state count front rs keys)) (append_assoc (first d) (evs d) rest)
            ∙ (run1 (evs d ++ rest)
                ∙ (run2 rest
                    ∙ ap (λ n. Run (state n front (counted_forest ts (counted t rs)) keys2) rest)
                        (let e : count + (expressions t + 0) + expressions_forest ts
                              ≡ count + (expressions t + expressions_forest ts) =
                            omega arith in
                          e))),
        Same-trans keys keys1 keys2 s1 s2,
      )

  pub item-Counts :
      (first : ℕ → List (ℕ × ParseEvent)) (t : Tree) → Counts first t → CountsAll first (cons t nil)
  item-Counts first t counts d count front rs keys inside one clear few =
      let off = clear d (omega arith) in
      let (keys1, run1, c) =
        counts d count front rs keys inside one (λ k h. clear k (omega arith)) (omega arith)
          (λ e. absurd (let e' = sym e ∙ off in cc)) in
      (
        keys1,
        λ rest.
            run1 rest
            ∙ (ap (λ b. Run (done (count + expressions t) front (counted t rs) b keys1) rest) off
                ∙ ap (λ n. Run (state n front (counted t rs) keys1) rest)
                    (let e : count + expressions t ≡ count + (expressions t + 0) = omega arith in
                      e)),
        Closed-Same keys keys1 d off c,
      )

  -- Where a key is read.
  key_step :
      (count : ℕ) (front rs : List ℕ) (keys : List Bool) (d : ℕ)
      → d ≤ length keys
      → 1 ≤ length keys
      → Step (state count front rs keys) d key
        ≡ ok (
            state
              (suc count)
              (front ++ suc (entry rs 0) ∷ [])
              (below rs)
              (set (grown keys d) d true))
  unfolding callback set_elem
  key_step count front rs keys d inside one =
      rw
        (
          opened count front rs keys d,
          lt→ltb d (length (grown keys d)) (grow_keys keys d inside one).inside,
        )
        refl

  -- Where its value ends, the traversal is back in the layer of the object.
  member_done :
      (count n : ℕ) (front rs : List ℕ) (keys : List Bool)
      → done count (front ++ n ∷ []) rs true keys ≡ state count front (n ∷ rs) keys
  member_done count n front rs keys =
      counter-eq count keys (append_assoc front (n ∷ []) rs) (grind lengths)

  pub member-Counts :
      (k : Bytes) (first : ℕ → List (ℕ × ParseEvent)) (t : Tree)
      → Counts first t
      → CountsAll (λ d. (d, key) ∷ first d) (cons (expression k (cons t nil)) nil)
  unfolding parse
  member-Counts k first t counts d count front rs keys inside one clear few =
      let g = grow_keys keys d inside one in
      let ks = set (grown keys d) d true in
      let size : length ks ≡ length (grown keys d) = length-set (grown keys d) d true in
      let flag : flag_of ks d ≡ true = flag_of-set-true (grown keys d) d g.inside in
      let others : (j : ℕ) → j ≢ d → flag_of ks j ≡ flag_of keys j =
        λ j h. flag_of-set_ne (grown keys d) d j true (λ e. h (sym e)) ∙ g.same j in
      let n = suc (entry rs 0) in
      let (keys1, run1, c) =
        counts d (suc count) (front ++ n ∷ []) (below rs) ks (omega (arith, size, g.inside))
          (omega (arith, size, g.longer))
          (λ j h. others j (λ e. omega arith) ∙ clear j (omega arith)) (grind lengths)
          (λ e. grind lengths) in
      (
        keys1,
        λ rest. rw (key_step count front rs keys d inside one) (
            run1 rest
            ∙ (ap
                  (λ b.
                    Run
                      (done (suc count + expressions t) (front ++ n ∷ []) (counted t (below rs)) b
                        keys1)
                      rest)
                  flag
                ∙ (ap (λ s. Run s rest)
                      (member_done (suc count + expressions t) n front (counted t (below rs)) keys1)
                    ∙ (ap (λ m. Run (state m front (n ∷ counted t (below rs)) keys1) rest)
                          (let e : suc count + expressions t
                                ≡ count + (suc (expressions t + 0) + 0) =
                              omega arith in
                            e)
                        ∙ ap
                            (λ l.
                              Run (state (count + (suc (expressions t + 0) + 0)) front l keys1)
                                rest)
                            (ap (λ l. n ∷ l) (sym (present-counted t (below rs)))
                              ∙ sym (counted-below k (cons t nil) rs)))))),
        member-Same keys ks keys1 d (clear d (omega arith)) (omega (arith, size, g.longer)) others
            c,
      )
