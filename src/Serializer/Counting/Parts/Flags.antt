-- ===== src/Serializer/Counting/Parts/Flags.antt =====
-- Source/WisentSerializer.cpp: the flags of the keys in the first traversal of `load`.
use wisent.Prelude.{
  ℕ, zero, suc, ◌≤◌, ◌<◌, ◌≡◌, ◌≢◌, refl, ◌∙◌, sym, ap, Bool, true, false, List, [], ◌∷◌, arith,
  length, set, ◌==◌, Bool-cases, ==_iff, inl, inr,
}
use wisent.Serializer.Counting.Steps.{flag_of, Grows}
use wisent.Serializer.Counting.Traversal.{Closed}

pub record Same (keys keys' : List Bool) : Type 0 where
  pub longer : length keys ≤ length keys'
  pub same : (k : ℕ) → flag_of keys' k ≡ flag_of keys k

pub Closed-after :
    (keys keys1 keys2 keys3 : List Bool) (d : ℕ)
    → Grows keys keys1 d
    → Same keys1 keys2
    → Closed keys2 keys3 d
    → Closed keys keys3 d
Closed-after keys keys1 keys2 keys3 d g s c = record {
  inside = c.inside;
  longer = omega (arith, g.longer, s.longer, c.longer);
  clear = c.clear;
  same = λ k h. c.same k h ∙ (s.same k ∙ g.same k);
}

pub Closed-Same :
    (keys keys1 : List Bool) (d : ℕ)
    → flag_of keys d ≡ false
    → Closed keys keys1 d
    → Same keys keys1
Closed-Same keys keys1 d off c = record {
  longer = c.longer;
  same = λ k. elim (Bool-cases (k == d)) [
    | inl e ↦
        let e' = (==_iff k d).0 e in
        ap (flag_of keys1) e' ∙ (c.clear ∙ (sym off ∙ ap (flag_of keys) (sym e')))
    | inr ne ↦ c.same k (λ e. let e' = (==_iff k d).1 e in cc)
  ];
}

pub Same-trans :
    (keys keys1 keys2 : List Bool) → Same keys keys1 → Same keys1 keys2 → Same keys keys2
Same-trans keys keys1 keys2 s s' = record {
  longer = omega (arith, s.longer, s'.longer);
  same = λ k. s'.same k ∙ s.same k;
}

pub member-Same :
    (keys ks keys1 : List Bool) (d : ℕ)
    → flag_of keys d ≡ false
    → length keys ≤ length ks
    → ((k : ℕ) → k ≢ d → flag_of ks k ≡ flag_of keys k)
    → Closed ks keys1 d
    → Same keys keys1
member-Same keys ks keys1 d off longer others c = Closed-Same keys keys1 d off (record {
  inside = c.inside;
  longer = omega (arith, longer, c.longer);
  clear = c.clear;
  same = λ k h. c.same k h ∙ others k h;
})

pub flag_of-set-true :
    (keys : List Bool) (k : ℕ) → k < length keys → flag_of (set keys k true) k ≡ true
flag_of-set-true [] k h = absurd (omega arith)
flag_of-set-true (b ∷ bs) zero h = refl
flag_of-set-true (b ∷ bs) (suc k) h = flag_of-set-true bs k (omega arith)
