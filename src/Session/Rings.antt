-- ===== src/Session/Rings.antt =====
-- Pointers that point at one another, and the nodes of the timer list in the order of their making.
use swaylock_plugin.Base.{
  ℕ, ◌≡◌, ◌↔◌, sym, ◌∙◌, Bool, true, Option, none, some, ◌==◌, ==_iff, if◌then◌else◌, Bool-cases,
  inl, inr,
}

-- `p` and `q` lead back and forth between the same pairs.
abbrev pub Match {ℓ} : {I : Type ℓ} → (I → Option ℕ) → (ℕ → Option I) → Type ℓ
Match p q = (i : _) (j : ℕ) → (p i ≡ some j) ↔ (q j ≡ some i)

module _ {ℓ} {I : Type ℓ} (same : I → I → Bool) (same_iff : (i k : I) → (same i k ≡ true) ↔ (i ≡ k))
    (p : I → Option ℕ) (q : ℕ → Option I) (p' : I → Option ℕ) (q' : ℕ → Option I) (i : I)
    (j : ℕ) where
  -- One pair is taken apart.
  pub Match-cut :
      Match p q
      → p i ≡ some j
      → ((k : I) → p' k ≡ (if same k i then none else p k))
      → ((l : ℕ) → q' l ≡ (if l == j then none else q l))
      → Match p' q'
  Match-cut m pij pk ql k l = elim (Bool-cases (same k i)) [
    | inl e ↦
        let ke : k ≡ i = (same_iff k i).0 e in
        let gone : p' k ≡ none = rw e at (pk k) in
        (
          (λ h. cc (h, gone)),
          λ h. elim (Bool-cases (l == j)) [
            | inl f ↦ let g : q' l ≡ none = rw f at (ql l) in cc (g, h)
            | inr f ↦
                let g : q' l ≡ q l = rw f at (ql l) in
                let back : p k ≡ some l = (m k l).1 (sym g ∙ h) in
                let lj : l ≡ j = cc (back, pij, ke) in
                let t : (l == j) ≡ true = (==_iff l j).1 lj in cc (t, f)
          ],
        )
    | inr e ↦
        let kept : p' k ≡ p k = rw e at (pk k) in
        (
          (λ h.
              let at : q l ≡ some k = (m k l).0 (sym kept ∙ h) in
              elim (Bool-cases (l == j)) [
                | inl f ↦
                    let lj : l ≡ j = (==_iff l j).0 f in
                    let other : q j ≡ some i = (m i j).0 pij in
                    let ki : k ≡ i = cc (at, other, lj) in
                    let t : same k i ≡ true = (same_iff k i).1 ki in cc (t, e)
                | inr f ↦ let g : q' l ≡ q l = rw f at (ql l) in g ∙ at
              ]),
          λ h. elim (Bool-cases (l == j)) [
            | inl f ↦ let g : q' l ≡ none = rw f at (ql l) in cc (g, h)
            | inr f ↦ let g : q' l ≡ q l = rw f at (ql l) in kept ∙ (m k l).1 (sym g ∙ h)
          ],
        )
  ]

  -- One pair is joined.
  pub Match-join :
      Match p q
      → p i ≡ none
      → q j ≡ none
      → ((k : I) → p' k ≡ (if same k i then some j else p k))
      → ((l : ℕ) → q' l ≡ (if l == j then some i else q l))
      → Match p' q'
  Match-join m pi qj pk ql k l = elim (Bool-cases (same k i)) [
    | inl e ↦
        let ke : k ≡ i = (same_iff k i).0 e in
        let new : p' k ≡ some j = rw e at (pk k) in
        elim (Bool-cases (l == j)) [
          | inl f ↦
              let lj : l ≡ j = (==_iff l j).0 f in
              let g : q' l ≡ some i = rw f at (ql l) in ((λ h. g ∙ cc ke), λ h. new ∙ cc lj)
          | inr f ↦
              let g : q' l ≡ q l = rw f at (ql l) in
              (
                (λ h.
                    let lj : l ≡ j = cc (h, new) in
                    let t : (l == j) ≡ true = (==_iff l j).1 lj in cc (t, f)),
                λ h. let back : p k ≡ some l = (m k l).1 (sym g ∙ h) in cc (back, pi, ke),
              )
        ]
    | inr e ↦
        let kept : p' k ≡ p k = rw e at (pk k) in
        elim (Bool-cases (l == j)) [
          | inl f ↦
              let lj : l ≡ j = (==_iff l j).0 f in
              let g : q' l ≡ some i = rw f at (ql l) in
              (
                (λ h. let at : q l ≡ some k = (m k l).0 (sym kept ∙ h) in cc (at, qj, lj)),
                λ h.
                    let ki : k ≡ i = cc (g, h) in
                    let t : same k i ≡ true = (same_iff k i).1 ki in cc (t, e),
              )
          | inr f ↦
              let g : q' l ≡ q l = rw f at (ql l) in
              ((λ h. g ∙ (m k l).0 (sym kept ∙ h)), λ h. kept ∙ (m k l).1 (sym g ∙ h))
        ]
  ]

pub Match-ext {ℓ} :
    {I : Type ℓ} (p : I → Option ℕ) (q : ℕ → Option I) (p' : I → Option ℕ) (q' : ℕ → Option I)
    → Match p q
    → ((k : I) → p' k ≡ p k)
    → ((l : ℕ) → q' l ≡ q l)
    → Match p' q'
Match-ext p q p' q' m pk ql i j =
    ((λ h. ql j ∙ (m i j).0 (sym (pk i) ∙ h)), λ h. pk i ∙ (m i j).1 (sym (ql j) ∙ h))
