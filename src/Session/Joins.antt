-- ===== src/Session/Joins.antt =====
-- What new clients and new timers make of the invariant.
use swaylock_plugin.Base.{
  ℕ, suc, ◌≤◌, ◌≡◌, refl, sym, ap, ◌∙◌, Bool, true, false, List, ◌∷◌, Option, none, some, ◌==◌,
  ==_iff, if◌then◌else◌, arith, Bool-cases, inl, inr,
}
use swaylock_plugin.EventLoop.{LoopTimer}
use swaylock_plugin.EventLoop.Freed.{free_timer}
use swaylock_plugin.EventLoop.Live.{live}
use swaylock_plugin.EventLoop.Order.{
  Below, Below-mono, live_above, free_timer-Below, free_timer-live_all,
}
use swaylock_plugin.Session.{ClientCall, connect_call, redraw_call}
use swaylock_plugin.Session.Rings.{Match-join, Match-ext}
use swaylock_plugin.Session.Ties.{Tie, Hold, mapped}
use swaylock_plugin.Session.Linked.{
  LinkedAt, heard, output_of, timer_of, client_of, due_of, connect_of, redraw_of, slot, same_slot,
  same_slot_iff, nothing,
}
use swaylock_plugin.Session.Moves.{Linked-ext}

-- The node that is being called back.
abbrev pub visited : ℕ → ℕ → Bool
visited i l = l == i

gained :
    (kind : Option ClientCall → Option ℕ) (h h' : Option ClientCall) (hit : Bool) (c : ClientCall)
    (r : Option ℕ)
    → kind (some c) ≡ r
    → h' ≡ (if hit then some c else h)
    → kind h' ≡ (if hit then r else kind h)
gained kind h h' true c r k e = ap kind e ∙ k
gained kind h h' false c r k e = ap kind e

gained_other :
    (kind : Option ClientCall → Option ℕ) (h h' : Option ClientCall) (hit : Bool) (c : ClientCall)
    → kind (some c) ≡ none
    → (hit ≡ true → kind h ≡ none)
    → h' ≡ (if hit then some c else h)
    → kind h' ≡ kind h
gained_other kind h h' true c k quiet e = ap kind e ∙ k ∙ sym (quiet refl)
gained_other kind h h' false c k quiet e = ap kind e

module _ {spare : ℕ → Bool} {ties : ℕ → Option Tie} {main : Option ℕ} {holds : ℕ → Option Hold}
    {ts : List (LoopTimer ClientCall)} {allocs starts : ℕ}
    (v : LinkedAt spare ties main holds ts allocs starts) where
  unheard : (l : ℕ) → (l == allocs) ≡ true → heard spare ts l ≡ none
  unheard l e =
      let le : l ≡ allocs = (==_iff l allocs).0 e in
      let above : live ts l ≡ none = live_above l allocs ts v.order (omega (arith, le)) in
      elim (Bool-cases (spare l)) [ inl s ↦ rw s refl | inr s ↦ rw s above ]

  -- A new node is heard.
  gained_new :
      (t : LoopTimer ClientCall) (l : ℕ)
      → t.address ≡ allocs
      → t.removed ≡ false
      → heard spare (t ∷ ts) l ≡ (if l == allocs then some t.callback else heard spare ts l)
  gained_new t l at on = elim (Bool-cases (l == allocs)) [
    | inl e ↦
        let le : l ≡ allocs = (==_iff l allocs).0 e in
        let s : spare l ≡ false = v.unspared l (omega (arith, le)) in
        let hit : (t.address == l) ≡ true = ground arith in rw (e, s, hit, on) refl
    | inr e ↦ let miss : (t.address == l) ≡ false = ground arith in rw (e, miss) refl
  ]

  order_new : (t : LoopTimer ClientCall) → t.address ≡ allocs → Below (suc allocs) (t ∷ ts)
  order_new t at = (omega (arith, at), Below-mono allocs t.address ts (omega (arith, at)) v.order)

  -- A new client with its timer.
  pub join_client :
      {ties' : ℕ → Option Tie} {main' : Option ℕ} {holds' : ℕ → Option Hold} {starts' : ℕ} (a : ℕ)
      (o : Option ℕ) (new : Tie) (t : LoopTimer ClientCall)
      → ties a ≡ none
      → slot main holds o ≡ none
      → new.output ≡ o
      → new.timer ≡ some allocs
      → t.address ≡ allocs
      → t.removed ≡ false
      → t.callback ≡ connect_call a
      → ((b : ℕ) → ties' b ≡ (if b == a then some new else ties b))
      → ((u : Option ℕ)
          → slot main' holds' u ≡ (if same_slot u o then some a else slot main holds u))
      → ((n : ℕ) → due_of (holds' n) ≡ due_of (holds n))
      → ((b : ℕ) → starts' ≤ b → ties' b ≡ none)
      → LinkedAt spare ties' main' holds' (t ∷ ts) (suc allocs) starts'
  join_client {ties' = ties'} {main' = main'} {holds' = holds'} a o new t ta so out tim at on call
        tl sl dl named =
      let heard_new : (l : ℕ)
          → heard spare (t ∷ ts) l
            ≡ (if l == allocs then some (connect_call a) else heard spare ts l) =
        λ l.
          gained_new t l at on ∙ ap (λ c. if l == allocs then some c else heard spare ts l) call in
      record {
        owners =
            Match-join same_slot same_slot_iff (slot main holds) (λ b. output_of (ties b))
              (slot main' holds') (λ b. output_of (ties' b)) o a v.owners so (ap output_of ta) sl
              (λ b. elim (Bool-cases (b == a)) [
                | inl e ↦
                    let g : ties' b ≡ some new = rw e at (tl b) in
                    rw e (ap output_of g ∙ ap some out)
                | inr e ↦ let g : ties' b ≡ ties b = rw e at (tl b) in rw e (ap output_of g)
              ]);
        connects =
            Match-join ◌==◌ ==_iff (λ b. timer_of (ties b)) (λ l. connect_of (heard spare ts l))
              (λ b. timer_of (ties' b)) (λ l. connect_of (heard spare (t ∷ ts) l)) a allocs
              v.connects (ap timer_of ta)
              (ap connect_of (unheard allocs ((==_iff allocs allocs).1 refl)))
              (λ b. elim (Bool-cases (b == a)) [
                | inl e ↦ let g : ties' b ≡ some new = rw e at (tl b) in rw e (ap timer_of g ∙ tim)
                | inr e ↦ let g : ties' b ≡ ties b = rw e at (tl b) in rw e (ap timer_of g)
              ])
              (λ l.
                gained connect_of (heard spare ts l) (heard spare (t ∷ ts) l) (l == allocs)
                  (connect_call a) (some a) refl (heard_new l));
        redraws =
            Match-ext (λ n. due_of (holds n)) (λ l. redraw_of (heard spare ts l))
              (λ n. due_of (holds' n)) (λ l. redraw_of (heard spare (t ∷ ts) l)) v.redraws dl
              (λ l.
                gained_other redraw_of (heard spare ts l) (heard spare (t ∷ ts) l) (l == allocs)
                  (connect_call a) refl (λ e. ap redraw_of (unheard l e)) (heard_new l));
        order = order_new t at;
        unspared = λ l le. v.unspared l (omega (arith, le));
        named = named;
      }

  -- An output's timer is started.
  pub join_redraw :
      {holds' : ℕ → Option Hold} (n : ℕ) (h : Hold) (f : Hold → Hold) (t : LoopTimer ClientCall)
      → holds n ≡ some h
      → h.timer ≡ none
      → ((k : Hold) → (f k).client ≡ k.client)
      → ((k : Hold) → (f k).timer ≡ some allocs)
      → t.address ≡ allocs
      → t.removed ≡ false
      → t.callback ≡ redraw_call n
      → ((m : ℕ) → holds' m ≡ (if m == n then mapped f (holds m) else holds m))
      → LinkedAt spare ties main holds' (t ∷ ts) (suc allocs) starts
  join_redraw {holds' = holds'} n h f t hn quiet fc ft at on call hl =
      let heard_new : (l : ℕ)
          → heard spare (t ∷ ts) l
            ≡ (if l == allocs then some (redraw_call n) else heard spare ts l) =
        λ l.
          gained_new t l at on ∙ ap (λ c. if l == allocs then some c else heard spare ts l) call in
      let here : (m : ℕ) → (m == n) ≡ true → holds' m ≡ some (f h) = λ m e.
        let g : holds' m ≡ mapped f (holds m) = rw e at (hl m) in
        let mn : m ≡ n = (==_iff m n).0 e in
        g ∙ ap (λ x. mapped f (holds x)) mn ∙ ap (mapped f) hn in
      let clients : (m : ℕ) → client_of (holds' m) ≡ client_of (holds m) = λ m.
        elim (Bool-cases (m == n)) [
          | inl e ↦
              let mn : m ≡ n = (==_iff m n).0 e in
              ap client_of (here m e)
              ∙ fc h
              ∙ sym (ap (λ x. client_of (holds x)) mn ∙ ap client_of hn)
          | inr e ↦ let g : holds' m ≡ holds m = rw e at (hl m) in ap client_of g
        ] in
      record {
        owners =
            Match-ext (slot main holds) (λ b. output_of (ties b)) (slot main holds')
              (λ b. output_of (ties b)) v.owners
              (λ k. elim k as (λ k. slot main holds' k ≡ slot main holds k) [
                | none ↦ refl
                | some m ↦ clients m
              ])
              (λ b. refl);
        connects =
            Match-ext (λ b. timer_of (ties b)) (λ l. connect_of (heard spare ts l))
              (λ b. timer_of (ties b)) (λ l. connect_of (heard spare (t ∷ ts) l)) v.connects
              (λ b. refl)
              (λ l.
                gained_other connect_of (heard spare ts l) (heard spare (t ∷ ts) l) (l == allocs)
                  (redraw_call n) refl (λ e. ap connect_of (unheard l e)) (heard_new l));
        redraws =
            Match-join ◌==◌ ==_iff (λ m. due_of (holds m)) (λ l. redraw_of (heard spare ts l))
              (λ m. due_of (holds' m)) (λ l. redraw_of (heard spare (t ∷ ts) l)) n allocs v.redraws
              (ap due_of hn ∙ quiet) (ap redraw_of (unheard allocs ((==_iff allocs allocs).1 refl)))
              (λ m. elim (Bool-cases (m == n)) [
                | inl e ↦ rw e (ap due_of (here m e) ∙ ft h)
                | inr e ↦ let g : holds' m ≡ holds m = rw e at (hl m) in rw e (ap due_of g)
              ])
              (λ l.
                gained redraw_of (heard spare ts l) (heard spare (t ∷ ts) l) (l == allocs)
                  (redraw_call n) (some n) refl (heard_new l));
        order = order_new t at;
        unspared = λ l le. v.unspared l (omega (arith, le));
        named = v.named;
      }

  -- A timer of another kind is started.
  pub join_other :
      (t : LoopTimer ClientCall)
      → t.address ≡ allocs
      → t.removed ≡ false
      → connect_of (some t.callback) ≡ none
      → redraw_of (some t.callback) ≡ none
      → LinkedAt spare ties main holds (t ∷ ts) (suc allocs) starts
  join_other t at on c r =
      Linked-ext v (λ b. refl) (λ b. refl) (λ u. refl) (λ n. refl)
        (λ l.
          gained_other connect_of (heard spare ts l) (heard spare (t ∷ ts) l) (l == allocs)
            t.callback c (λ e. ap connect_of (unheard l e)) (gained_new t l at on))
        (λ l.
          gained_other redraw_of (heard spare ts l) (heard spare (t ∷ ts) l) (l == allocs)
            t.callback r (λ e. ap redraw_of (unheard l e)) (gained_new t l at on))
        (suc allocs) starts (order_new t at) (λ l le. v.unspared l (omega (arith, le))) v.named

-- The node is an old one.
pub visited-Below :
    (i allocs : ℕ) (ts : List (LoopTimer ClientCall)) (c : ClientCall)
    → Below allocs ts
    → live ts i ≡ some c
    → (l : ℕ) → allocs ≤ l
    → visited i l ≡ false
visited-Below i allocs ts c b at l le = elim (Bool-cases (l == i)) [
  | inl e ↦
      let li : l ≡ i = (==_iff l i).0 e in
      let above : live ts i ≡ none = live_above i allocs ts b (omega (arith, le, li)) in
      cc (at, above)
  | inr e ↦ e
]

module _ {ties : ℕ → Option Tie} {main : Option ℕ} {holds : ℕ → Option Hold}
    {ts : List (LoopTimer ClientCall)} {allocs starts : ℕ} (i : ℕ) where
  -- The node that was called back is freed.
  pub free_visited :
      LinkedAt (visited i) ties main holds ts allocs starts
      → LinkedAt nothing ties main holds (free_timer i ts) allocs starts
  free_visited v =
      let same : (l : ℕ) → heard nothing (free_timer i ts) l ≡ heard (visited i) ts l =
        λ l. free_timer-live_all i l allocs ts v.order in
      Linked-ext v (λ b. refl) (λ b. refl) (λ u. refl) (λ n. refl) (λ l. ap connect_of (same l))
        (λ l. ap redraw_of (same l)) allocs starts (free_timer-Below i allocs ts v.order)
        (λ l le. refl) v.named

  -- A node of another kind is called back.
  pub visit_other :
      (c : ClientCall)
      → live ts i ≡ some c
      → connect_of (some c) ≡ none
      → redraw_of (some c) ≡ none
      → LinkedAt nothing ties main holds ts allocs starts
      → LinkedAt (visited i) ties main holds ts allocs starts
  visit_other c at cn rn v =
      Linked-ext v (λ b. refl) (λ b. refl) (λ u. refl) (λ n. refl)
        (λ l. elim (Bool-cases (l == i)) [
          | inl e ↦
              let li : l ≡ i = (==_iff l i).0 e in
              rw e (sym (ap (λ x. connect_of (live ts x)) li ∙ ap connect_of at ∙ cn))
          | inr e ↦ rw e refl
        ])
        (λ l. elim (Bool-cases (l == i)) [
          | inl e ↦
              let li : l ≡ i = (==_iff l i).0 e in
              rw e (sym (ap (λ x. redraw_of (live ts x)) li ∙ ap redraw_of at ∙ rn))
          | inr e ↦ rw e refl
        ])
        allocs starts v.order (visited-Below i allocs ts c v.order at) v.named
