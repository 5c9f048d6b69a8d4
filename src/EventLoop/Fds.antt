-- ===== src/EventLoop/Fds.antt =====
-- The table of descriptors and the list of events stay aligned: cell i belongs to event i.
use swaylock_plugin.Base.{
  ℕ, suc, ◌+◌, ◌-◌, ◌≡◌, refl, sym, ap, ◌∙◌, Bool, true, false, List, [], ◌∷◌, ◌++◌, some, arith,
  ◌==◌, if◌then◌else◌, length, drop, get_elem?, length-append, length-drop, take-append,
  drop-append_add, subst, get_elem?-append, append_assoc, Bool-cases, inl, inr,
}
use swaylock_plugin.EventLoop.{Pollfd, LoopFdEvent, memmove_down, mark_fd, free_removed}

-- A cell with its event.
abbrev pub Entry : Type 0 → Type 0
Entry F = Pollfd × LoopFdEvent F

memmove_down-append :
    (pre : List Pollfd) (c : Pollfd) (cs junk : List Pollfd) (i n : ℕ)
    → length pre ≡ i
    → length cs ≡ n
    → memmove_down (pre ++ c ∷ (cs ++ junk)) i n ≡ pre ++ (cs ++ drop n (c ∷ (cs ++ junk)))
unfolding memmove_down
memmove_down-append pre c cs junk i n p q = rw (
  take-append pre (c ∷ (cs ++ junk)) i p,
  drop-append_add pre (c ∷ (cs ++ junk)) i 1 p,
  drop-append_add pre (c ∷ (cs ++ junk)) i n p,
  take-append cs junk n q,
)

get_cell :
    (pre : List Pollfd) (p : Pollfd) (rest : List Pollfd) (i : ℕ)
    → length pre ≡ i
    → get_elem? (pre ++ p ∷ rest) i ≡ some p
get_cell pre p rest i h =
    let e : i + 0 ≡ i = omega arith in rw e at (get_elem?-append pre (p ∷ rest) 0 i h)

module _ {F : Type 0} where
  abbrev pub cells : List (Entry F) → List Pollfd
  cells [] = []
  cells ((p, e) ∷ es) = p ∷ cells es

  abbrev pub events : List (Entry F) → List (LoopFdEvent F)
  events [] = []
  events ((p, e) ∷ es) = e ∷ events es

  pub length-cells : (es : List (Entry F)) → length (cells es) ≡ length es
  length-cells [] = refl
  length-cells ((p, e) ∷ es) = ap suc (length-cells es)

  pub length-events : (es : List (Entry F)) → length (events es) ≡ length es
  length-events [] = refl
  length-events ((p, e) ∷ es) = ap suc (length-events es)

  pub cells-append : (xs ys : List (Entry F)) → cells (xs ++ ys) ≡ cells xs ++ cells ys
  cells-append [] ys = refl
  cells-append ((p, e) ∷ xs) ys = ap (◌∷◌ p) (cells-append xs ys)

  pub events-append : (xs ys : List (Entry F)) → events (xs ++ ys) ≡ events xs ++ events ys
  events-append [] ys = refl
  events-append ((p, e) ∷ xs) ys = ap (◌∷◌ e) (events-append xs ys)

  -- What the loop ought to do: keep the entries whose event is not marked.
  abbrev pub kept : List (Entry F) → List (Entry F)
  kept [] = []
  kept ((p, e) ∷ es) = let rest = kept es in if e.removed then rest else (p, e) ∷ rest

  -- Mark the first entry with the descriptor.
  abbrev pub marked : ℕ → List (Entry F) → List (Entry F)
  marked fd [] = []
  marked fd ((p, e) ∷ es) =
      let rest = marked fd es in
      if p.fd == fd then (p, record e { removed = true }) ∷ es else (p, e) ∷ rest

  abbrev pub has_fd : ℕ → List (Entry F) → Bool
  has_fd fd [] = false
  has_fd fd ((p, e) ∷ es) = let rest = has_fd fd es in if p.fd == fd then true else rest

  -- The scan marks what it ought to, whatever stands in the cells before and after the entries.
  pub mark_fd-marked :
      (pre junk : List Pollfd) (i fd : ℕ) (es : List (Entry F))
      → length pre ≡ i
      → mark_fd (pre ++ (cells es ++ junk)) i fd (events es)
        ≡ some (events (marked fd es), has_fd fd es)
  unfolding mark_fd
  mark_fd-marked pre junk i fd [] h = refl
  mark_fd-marked pre junk i fd ((p, e) ∷ es) h =
      let here : get_elem? (pre ++ p ∷ (cells es ++ junk)) i ≡ some p =
        rw (get_cell pre p (cells es ++ junk) i h) in
      let rest =
        mark_fd-marked (pre ++ p ∷ []) junk (i + 1) fd es
          (omega (arith, length-append pre (p ∷ []))) in
      let rest' = rw (append_assoc pre (p ∷ []) (cells es ++ junk)) at rest in
      elim (Bool-cases (p.fd == fd)) [
        | inl hit ↦ rw (here, mark_fd, hit)
        | inr miss ↦ rw (here, mark_fd, miss, rest')
      ]

  free_gone :
      (e : LoopFdEvent F) (es : List (LoopFdEvent F)) (i : ℕ) (fds : List Pollfd) (n : ℕ)
      → e.removed ≡ true
      → free_removed (e ∷ es) i fds n ≡ free_removed es i (memmove_down fds i (n - 1 - i)) (n - 1)
  unfolding free_removed
  free_gone e es i fds n h = rw (h, free_removed)

  free_stays :
      (e : LoopFdEvent F) (es : List (LoopFdEvent F)) (i : ℕ) (fds : List Pollfd) (n : ℕ)
      → e.removed ≡ false
      → let (events', fds', m) = free_removed es (i + 1) fds n in
        free_removed (e ∷ es) i fds n ≡ (e ∷ events', fds', m)
  unfolding free_removed
  free_stays e es i fds n h = simp (h, free_removed)

  -- What the sweep of the entries `es` from cell `i` on leaves: the unmarked entries, in order,
  -- behind the same prefix, in a table of the same size.
  abbrev pub SweptTo :
      List (Entry F)
      → List Pollfd
      → List Pollfd
      → ℕ
      → List (Entry F)
      → List (LoopFdEvent F) × List Pollfd × ℕ
      → Type 0
  SweptTo left pre junk i es r =
      (junk' : List Pollfd) × (r ≡ (events left, pre ++ (cells left ++ junk'), i + length left))
      × (length es + length junk ≡ length left + length junk')

  abbrev pub Swept :
      List Pollfd
      → List Pollfd
      → ℕ
      → List (Entry F)
      → List (LoopFdEvent F) × List Pollfd × ℕ
      → Type 0
  Swept pre junk i es r = SweptTo (kept es) pre junk i es r

  kept_gone :
      (p : Pollfd) (e : LoopFdEvent F) (es : List (Entry F))
      → e.removed ≡ true
      → kept ((p, e) ∷ es) ≡ kept es
  kept_gone p e es h = simp h

  kept_stays :
      (p : Pollfd) (e : LoopFdEvent F) (es : List (Entry F))
      → e.removed ≡ false
      → kept ((p, e) ∷ es) ≡ (p, e) ∷ kept es
  kept_stays p e es h = simp h

  module _ (pre junk : List Pollfd) (i : ℕ) (p : Pollfd) (e : LoopFdEvent F) (es : List (Entry F))
      (r : List (LoopFdEvent F) × List Pollfd × ℕ) where
    Swept-gone :
        e.removed ≡ true
        → Swept pre (drop (length es) (p ∷ (cells es ++ junk))) i es r
        → Swept pre junk i ((p, e) ∷ es) r
    Swept-gone gone (junk', eq, size) =
        subst (λ left. SweptTo left pre junk i ((p, e) ∷ es) r) (sym (kept_gone p e es gone))
          (
            junk',
            eq,
            omega (
              arith,
              size,
              length-drop (length es) (p ∷ (cells es ++ junk)),
              length-append (cells es) junk,
              length-cells es,
            ),
          )

    Swept-stays :
        e.removed ≡ false
        → Swept (pre ++ p ∷ []) junk (i + 1) es r
        → Swept pre junk i ((p, e) ∷ es) (e ∷ r.0, r.1, r.2)
    Swept-stays stays (junk', eq, size) =
        let count : i + 1 + length (kept es) ≡ i + suc (length (kept es)) = omega arith in
        subst (λ left. SweptTo left pre junk i ((p, e) ∷ es) (e ∷ r.0, r.1, r.2))
          (sym (kept_stays p e es stays))
          (
            junk',
            rw (eq, append_assoc pre (p ∷ []) (cells (kept es) ++ junk'), count),
            omega (arith, size),
          )

  pub free_removed-Swept :
      (pre junk : List Pollfd) (i n : ℕ) (es : List (Entry F))
      → length pre ≡ i
      → i + length es ≡ n
      → Swept pre junk i es (free_removed (events es) i (pre ++ (cells es ++ junk)) n)
  free_removed-Swept pre junk i n [] h m =
      (junk, unfold free_removed in ap (λ k. ([], pre ++ junk, k)) (omega arith), refl)
  free_removed-Swept pre junk i n ((p, e) ∷ es) h m = elim (Bool-cases e.removed) [
    | inl gone ↦
        let count : n - 1 - i ≡ length es = omega arith in
        let shift = memmove_down-append pre p (cells es) junk i (length es) h (length-cells es) in
        rw (free_gone e (events es) i _ n gone, count, shift)
          (Swept-gone pre junk i p e es _ gone
            (free_removed-Swept pre _ i (n - 1) es h (omega arith)))
    | inr stays ↦
        let rest =
          free_removed-Swept (pre ++ p ∷ []) junk (i + 1) n es
            (omega (arith, length-append pre (p ∷ []))) (omega arith) in
        let rest' = rw (append_assoc pre (p ∷ []) (cells es ++ junk)) at rest in
        rw (free_stays e (events es) i _ n stays) (Swept-stays pre junk i p e es _ stays rest')
  ]

  pub cells-marked : (fd : ℕ) (es : List (Entry F)) → cells (marked fd es) ≡ cells es
  cells-marked fd [] = refl
  cells-marked fd ((p, e) ∷ es) = elim (Bool-cases (p.fd == fd)) [
    | inl hit ↦ simp hit
    | inr miss ↦ simp (miss, cells-marked fd es)
  ]

  pub length-marked : (fd : ℕ) (es : List (Entry F)) → length (marked fd es) ≡ length es
  length-marked fd es =
      sym (length-cells (marked fd es)) ∙ ap length (cells-marked fd es) ∙ length-cells es
