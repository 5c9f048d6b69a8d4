-- ===== src/Session/Moves.antt =====
-- What single changes of ties and timers make of the invariant.
use swaylock_plugin.Base.{
  ℕ, ◌≤◌, ◌≡◌, refl, sym, ap, ◌∙◌, Bool, true, false, List, Option, none, some, ◌==◌, ==_iff,
  if◌then◌else◌, Bool-cases, inl, inr,
}
use swaylock_plugin.EventLoop.{LoopTimer}
use swaylock_plugin.EventLoop.Order.{Below}
use swaylock_plugin.Session.{ClientCall, connect_call, redraw_call, hidden_call, other_call}
use swaylock_plugin.Session.Rings.{Match-cut, Match-ext}
use swaylock_plugin.Session.Ties.{Tie, Hold, mapped}
use swaylock_plugin.Session.Linked.{
  LinkedAt, heard, output_of, timer_of, client_of, due_of, connect_of, redraw_of, slot, same_slot,
  same_slot_iff,
}

connect_no_redraw : (o : Option ClientCall) (a : ℕ) → connect_of o ≡ some a → redraw_of o ≡ none
connect_no_redraw none a h = refl
connect_no_redraw (some (connect_call b)) a h = refl
connect_no_redraw (some (redraw_call n)) a h = cc h
connect_no_redraw (some hidden_call) a h = refl
connect_no_redraw (some (other_call k)) a h = refl

redraw_no_connect : (o : Option ClientCall) (n : ℕ) → redraw_of o ≡ some n → connect_of o ≡ none
redraw_no_connect none n h = refl
redraw_no_connect (some (connect_call b)) n h = cc h
redraw_no_connect (some (redraw_call m)) n h = refl
redraw_no_connect (some hidden_call) n h = refl
redraw_no_connect (some (other_call k)) n h = refl

-- Node `i` is heard no more.
abbrev pub Lost :
    (ℕ → Bool) → List (LoopTimer ClientCall) → (ℕ → Bool) → List (LoopTimer ClientCall) → ℕ → Type 0
Lost spare ts spare' ts' i =
    (l : ℕ) → heard spare' ts' l ≡ (if l == i then none else heard spare ts l)

-- Of a kind of calls that node `i` is not, nothing is lost.
lost_other :
    (kind : Option ClientCall → Option ℕ) (h h' : Option ClientCall) (hit : Bool)
    → kind none ≡ none
    → (hit ≡ true → kind h ≡ none)
    → h' ≡ (if hit then none else h)
    → kind h' ≡ kind h
lost_other kind h h' true k quiet e = ap kind e ∙ k ∙ sym (quiet refl)
lost_other kind h h' false k quiet e = ap kind e

lost_own :
    (kind : Option ClientCall → Option ℕ) (h h' : Option ClientCall) (hit : Bool)
    → kind none ≡ none
    → h' ≡ (if hit then none else h)
    → kind h' ≡ (if hit then none else kind h)
lost_own kind h h' true k e = ap kind e ∙ k
lost_own kind h h' false k e = ap kind e

mapped-output :
    (f : Tie → Tie) (o : Option Tie)
    → ((t : Tie) → (f t).output ≡ t.output)
    → output_of (mapped f o) ≡ output_of o
mapped-output f none k = refl
mapped-output f (some t) k = ap some (k t)

mapped-timer :
    (f : Tie → Tie) (o : Option Tie)
    → ((t : Tie) → (f t).timer ≡ none)
    → timer_of (mapped f o) ≡ none
mapped-timer f none k = refl
mapped-timer f (some t) k = k t

mapped-client :
    (g : Hold → Hold) (o : Option Hold)
    → ((h : Hold) → (g h).client ≡ h.client)
    → client_of (mapped g o) ≡ client_of o
mapped-client g none k = refl
mapped-client g (some h) k = k h

mapped-due :
    (g : Hold → Hold) (o : Option Hold)
    → ((h : Hold) → (g h).timer ≡ none)
    → due_of (mapped g o) ≡ none
mapped-due g none k = refl
mapped-due g (some h) k = k h

module _ {spare : ℕ → Bool} {ties : ℕ → Option Tie} {main : Option ℕ} {holds : ℕ → Option Hold}
    {ts : List (LoopTimer ClientCall)} {allocs starts : ℕ}
    (v : LinkedAt spare ties main holds ts allocs starts) where
  -- A connection timer is stopped.
  pub cut_connect :
      {spare' : ℕ → Bool} {ties' : ℕ → Option Tie} {ts' : List (LoopTimer ClientCall)} (a i : ℕ)
      (f : Tie → Tie)
      → timer_of (ties a) ≡ some i
      → ((t : Tie) → (f t).output ≡ t.output)
      → ((t : Tie) → (f t).timer ≡ none)
      → ((b : ℕ) → ties' b ≡ (if b == a then mapped f (ties b) else ties b))
      → Lost spare ts spare' ts' i
      → Below allocs ts'
      → ((l : ℕ) → allocs ≤ l → spare' l ≡ false)
      → LinkedAt spare' ties' main holds ts' allocs starts
  cut_connect {spare' = spare'} {ties' = ties'} {ts' = ts'} a i f at fo ft tl lost order unspared =
      let own : connect_of (heard spare ts i) ≡ some a = (v.connects a i).0 at in
      record {
        owners =
            Match-ext (slot main holds) (λ b. output_of (ties b)) (slot main holds)
              (λ b. output_of (ties' b)) v.owners (λ k. refl)
              (λ b. elim (Bool-cases (b == a)) [
                | inl e ↦
                    let g : ties' b ≡ mapped f (ties b) = rw e at (tl b) in
                    ap output_of g ∙ mapped-output f (ties b) fo
                | inr e ↦ let g : ties' b ≡ ties b = rw e at (tl b) in ap output_of g
              ]);
        connects =
            Match-cut ◌==◌ ==_iff (λ b. timer_of (ties b)) (λ l. connect_of (heard spare ts l))
              (λ b. timer_of (ties' b)) (λ l. connect_of (heard spare' ts' l)) a i v.connects at
              (λ b. elim (Bool-cases (b == a)) [
                | inl e ↦
                    let g : ties' b ≡ mapped f (ties b) = rw e at (tl b) in
                    rw e (ap timer_of g ∙ mapped-timer f (ties b) ft)
                | inr e ↦ let g : ties' b ≡ ties b = rw e at (tl b) in rw e (ap timer_of g)
              ])
              (λ l.
                lost_own connect_of (heard spare ts l) (heard spare' ts' l) (l == i) refl (lost l));
        redraws =
            Match-ext (λ n. due_of (holds n)) (λ l. redraw_of (heard spare ts l))
              (λ n. due_of (holds n)) (λ l. redraw_of (heard spare' ts' l)) v.redraws (λ n. refl)
              (λ l.
                lost_other redraw_of (heard spare ts l) (heard spare' ts' l) (l == i) refl
                  (λ hit.
                    let li : l ≡ i = (==_iff l i).0 hit in
                    ap (λ x. redraw_of (heard spare ts x)) li
                    ∙ connect_no_redraw (heard spare ts i) a own)
                  (lost l));
        order = order;
        unspared = unspared;
        named = λ b le. elim (Bool-cases (b == a)) [
          | inl e ↦
              let g : ties' b ≡ mapped f (ties b) = rw e at (tl b) in
              g ∙ ap (mapped f) (v.named b le)
          | inr e ↦ let g : ties' b ≡ ties b = rw e at (tl b) in g ∙ v.named b le
        ];
      }

  -- A redraw timer is stopped.
  pub cut_redraw :
      {spare' : ℕ → Bool} {holds' : ℕ → Option Hold} {ts' : List (LoopTimer ClientCall)} (n i : ℕ)
      (f : Hold → Hold)
      → due_of (holds n) ≡ some i
      → ((h : Hold) → (f h).client ≡ h.client)
      → ((h : Hold) → (f h).timer ≡ none)
      → ((m : ℕ) → holds' m ≡ (if m == n then mapped f (holds m) else holds m))
      → Lost spare ts spare' ts' i
      → Below allocs ts'
      → ((l : ℕ) → allocs ≤ l → spare' l ≡ false)
      → LinkedAt spare' ties main holds' ts' allocs starts
  cut_redraw {spare' = spare'} {holds' = holds'} {ts' = ts'} n i f at fc ft hl lost order unspared =
      let own : redraw_of (heard spare ts i) ≡ some n = (v.redraws n i).0 at in
      let clients : (m : ℕ) → client_of (holds' m) ≡ client_of (holds m) = λ m.
        elim (Bool-cases (m == n)) [
          | inl e ↦
              let g : holds' m ≡ mapped f (holds m) = rw e at (hl m) in
              ap client_of g ∙ mapped-client f (holds m) fc
          | inr e ↦ let g : holds' m ≡ holds m = rw e at (hl m) in ap client_of g
        ] in
      record {
        owners =
            Match-ext (slot main holds) (λ b. output_of (ties b)) (slot main holds')
              (λ b. output_of (ties b)) v.owners
              (λ k. elim k as (λ k. slot main holds' k ≡ slot main holds k) [
                | none ↦ refl
                | some m ↦ clients m
              ])
              (λ b. refl);
        connects =
            Match-ext (λ b. timer_of (ties b)) (λ l. connect_of (heard spare ts l))
              (λ b. timer_of (ties b)) (λ l. connect_of (heard spare' ts' l)) v.connects (λ b. refl)
              (λ l.
                lost_other connect_of (heard spare ts l) (heard spare' ts' l) (l == i) refl
                  (λ hit.
                    let li : l ≡ i = (==_iff l i).0 hit in
                    ap (λ x. connect_of (heard spare ts x)) li
                    ∙ redraw_no_connect (heard spare ts i) n own)
                  (lost l));
        redraws =
            Match-cut ◌==◌ ==_iff (λ m. due_of (holds m)) (λ l. redraw_of (heard spare ts l))
              (λ m. due_of (holds' m)) (λ l. redraw_of (heard spare' ts' l)) n i v.redraws at
              (λ m. elim (Bool-cases (m == n)) [
                | inl e ↦
                    let g : holds' m ≡ mapped f (holds m) = rw e at (hl m) in
                    rw e (ap due_of g ∙ mapped-due f (holds m) ft)
                | inr e ↦ let g : holds' m ≡ holds m = rw e at (hl m) in rw e (ap due_of g)
              ])
              (λ l.
                lost_own redraw_of (heard spare ts l) (heard spare' ts' l) (l == i) refl (lost l));
        order = order;
        unspared = unspared;
        named = v.named;
      }

  -- A client without a timer goes.
  pub cut_client :
      {ties' : ℕ → Option Tie} {main' : Option ℕ} {holds' : ℕ → Option Hold} (a : ℕ) (o : Option ℕ)
      → output_of (ties a) ≡ some o
      → timer_of (ties a) ≡ none
      → ((b : ℕ) → ties' b ≡ (if b == a then none else ties b))
      → ((u : Option ℕ) → slot main' holds' u ≡ (if same_slot u o then none else slot main holds u))
      → ((n : ℕ) → due_of (holds' n) ≡ due_of (holds n))
      → LinkedAt spare ties' main' holds' ts allocs starts
  cut_client {ties' = ties'} {main' = main'} {holds' = holds'} a o out quiet tl sl dl = record {
    owners =
        Match-cut same_slot same_slot_iff (slot main holds) (λ b. output_of (ties b))
          (slot main' holds') (λ b. output_of (ties' b)) o a v.owners ((v.owners o a).1 out) sl
          (λ b. elim (Bool-cases (b == a)) [
            | inl e ↦ let g : ties' b ≡ none = rw e at (tl b) in rw e (ap output_of g)
            | inr e ↦ let g : ties' b ≡ ties b = rw e at (tl b) in rw e (ap output_of g)
          ]);
    connects =
        Match-ext (λ b. timer_of (ties b)) (λ l. connect_of (heard spare ts l))
          (λ b. timer_of (ties' b)) (λ l. connect_of (heard spare ts l)) v.connects
          (λ b. elim (Bool-cases (b == a)) [
            | inl e ↦
                let g : ties' b ≡ none = rw e at (tl b) in
                let ba : b ≡ a = (==_iff b a).0 e in
                ap timer_of g ∙ sym (ap (λ x. timer_of (ties x)) ba ∙ quiet)
            | inr e ↦ let g : ties' b ≡ ties b = rw e at (tl b) in ap timer_of g
          ])
          (λ l. refl);
    redraws =
        Match-ext (λ n. due_of (holds n)) (λ l. redraw_of (heard spare ts l))
          (λ n. due_of (holds' n)) (λ l. redraw_of (heard spare ts l)) v.redraws dl (λ l. refl);
    order = v.order;
    unspared = v.unspared;
    named = λ b le. elim (Bool-cases (b == a)) [
      | inl e ↦ let g : ties' b ≡ none = rw e at (tl b) in g
      | inr e ↦ let g : ties' b ≡ ties b = rw e at (tl b) in g ∙ v.named b le
    ];
  }

  -- Nothing that matters changes.
  pub Linked-ext :
      {spare' : ℕ → Bool} {ties' : ℕ → Option Tie} {main' : Option ℕ} {holds' : ℕ → Option Hold}
      {ts' : List (LoopTimer ClientCall)}
      → ((b : ℕ) → output_of (ties' b) ≡ output_of (ties b))
      → ((b : ℕ) → timer_of (ties' b) ≡ timer_of (ties b))
      → ((u : Option ℕ) → slot main' holds' u ≡ slot main holds u)
      → ((n : ℕ) → due_of (holds' n) ≡ due_of (holds n))
      → ((l : ℕ) → connect_of (heard spare' ts' l) ≡ connect_of (heard spare ts l))
      → ((l : ℕ) → redraw_of (heard spare' ts' l) ≡ redraw_of (heard spare ts l))
      → (allocs' starts' : ℕ) → Below allocs' ts'
      → ((l : ℕ) → allocs' ≤ l → spare' l ≡ false)
      → ((b : ℕ) → starts' ≤ b → ties' b ≡ none)
      → LinkedAt spare' ties' main' holds' ts' allocs' starts'
  Linked-ext {spare' = spare'} {ties' = ties'} {main' = main'} {holds' = holds'} {ts' = ts'} ol tl
        sl dl cl rl allocs' starts' order unspared named =
      record {
        owners =
            Match-ext (slot main holds) (λ b. output_of (ties b)) (slot main' holds')
              (λ b. output_of (ties' b)) v.owners sl ol;
        connects =
            Match-ext (λ b. timer_of (ties b)) (λ l. connect_of (heard spare ts l))
              (λ b. timer_of (ties' b)) (λ l. connect_of (heard spare' ts' l)) v.connects tl cl;
        redraws =
            Match-ext (λ n. due_of (holds n)) (λ l. redraw_of (heard spare ts l))
              (λ n. due_of (holds' n)) (λ l. redraw_of (heard spare' ts' l)) v.redraws dl rl;
        order = order;
        unspared = unspared;
        named = named;
      }
