-- ===== src/Session/Tied.antt =====
-- What ties a new client to its output.
use swaylock_plugin.Base.{
  ℕ, ◌≡◌, refl, sym, ap, ◌∙◌, Bool, true, false, List, Option, none, some, ◌==◌, ==_iff,
  if◌then◌else◌, returns,
}
use swaylock_plugin.Clients.{Surface}
use swaylock_plugin.Session.{Session, update_surface}
use swaylock_plugin.Session.Commands.{own_surface, tie_surface, tie_main, tie_client}
use swaylock_plugin.Session.Ties.{Hold, hold, mapped, find_surface-hold, hold-update_surface}
use swaylock_plugin.Session.Names.{Unrepeated, update_surface-Unrepeated}
use swaylock_plugin.Session.Linked.{client_of, due_of, slot, same_slot, holds_of}

-- The output that a command is for is there.
abbrev pub Present : Option ℕ → List Surface → Type 0
Present none fs = Unit {0}
Present (some n) fs = (h : Hold) × (hold n fs ≡ some h)

-- What `tie_client` changes.
pub record Tied (a : ℕ) (o : Option ℕ) (s s' : Session) : Type 0 where
  pub slots :
      (u : Option ℕ)
      → slot s'.main_client (holds_of s') u
        ≡ (if same_slot u o then some a else slot s.main_client (holds_of s) u)
  pub dues : (n : ℕ) → due_of (holds_of s' n) ≡ due_of (holds_of s n)
  pub same_clients : s'.clients ≡ s.clients
  pub same_loop : s'.eventloop ≡ s.eventloop
  pub same_display : s'.display ≡ s.display
  pub same_starts : s'.starts ≡ s.starts
  pub distinct : Unrepeated s.surfaces → Unrepeated s'.surfaces
  pub present : (n : ℕ) → Present (some n) s.surfaces → Present (some n) s'.surfaces

pub owned : ℕ → Hold → Hold
owned a h = record h { client = some a }

pub owned_slot :
    (a : ℕ) (x : Option Hold) (hit : Bool) (h : Hold)
    → (hit ≡ true → x ≡ some h)
    → client_of (if hit then mapped (owned a) x else x) ≡ (if hit then some a else client_of x)
unfolding owned
owned_slot a none true h e = cc (e refl)
owned_slot a (some k) true h e = refl
owned_slot a x false h e = refl

pub owned_due :
    (a : ℕ) (x : Option Hold) (hit : Bool)
    → due_of (if hit then mapped (owned a) x else x) ≡ due_of x
unfolding owned
owned_due a none true = refl
owned_due a (some h) true = refl
owned_due a x false = refl

pub owned_present :
    (a : ℕ) (x : Option Hold) (hit : Bool)
    → ((h : Hold) × (x ≡ some h))
    → (h : Hold) × ((if hit then mapped (owned a) x else x) ≡ some h)
owned_present a none true (h, e) = cc e
owned_present a (some k) true (h, e) = (owned a k, refl)
owned_present a x false p = p

pub tie_main-none :
    (a : ℕ) (m : Option ℕ) (s : Session)
    → m ≡ none
    → tie_main a m s ≡ returns (record s { main_client = some a })
unfolding tie_main
tie_main-none a none s e = refl
tie_main-none a (some b) s e = cc e

pub tie_client-Tied :
    (a : ℕ) (o : Option ℕ) (s : Session)
    → slot s.main_client (holds_of s) o ≡ none
    → Present o s.surfaces
    → (s' : Session) × (tie_client a o s ≡ returns s') × Tied a o s s'
unfolding tie_client tie_surface own_surface owned
tie_client-Tied a none s free here = (
  record s { main_client = some a },
  tie_main-none a s.main_client s free,
  record {
    slots = λ u.
        elim u
          as (λ u.
            slot (some a) (holds_of s) u
            ≡ (if same_slot u none then some a else slot s.main_client (holds_of s) u)) [
              | none ↦ refl
              | some n ↦ refl
            ];
    dues = λ n. refl;
    same_clients = refl;
    same_loop = refl;
    same_display = refl;
    same_starts = refl;
    distinct = λ u. u;
    present = λ n p. p;
  },
)
tie_client-Tied a (some n) s free (h, held) =
    let (f, found, fh) = find_surface-hold n s.surfaces h held in
    let fc : f.client ≡ none = ap (λ (k : Hold). k.client) fh ∙ sym (ap client_of held) ∙ free in
    let upd : (m : ℕ)
        → hold m (update_surface n (λ g. record g { client = some a }) s.surfaces)
          ≡ (if m == n then mapped (owned a) (hold m s.surfaces) else hold m s.surfaces) =
      λ m.
        hold-update_surface (λ g. record g { client = some a }) (owned a) (λ g. (refl, refl)) n m
          s.surfaces in
    (
      record s { surfaces = update_surface n (λ g. record g { client = some a }) s.surfaces },
      ap (λ o. tie_surface a n o s) found ∙ ap (λ x. own_surface a n x s) fc,
      record {
        slots = λ u.
            elim u
              as (λ u.
                slot s.main_client
                  (λ m. hold m (update_surface n (λ g. record g { client = some a }) s.surfaces)) u
                ≡ (if same_slot u (some n) then some a else slot s.main_client (holds_of s) u)) [
                  | none ↦ refl
                  | some m ↦
                      ap client_of (upd m)
                      ∙ owned_slot a (hold m s.surfaces) (m == n) h
                          (λ e. let mn : m ≡ n = (==_iff m n).0 e in ap (holds_of s) mn ∙ held)
                ];
        dues = λ m. ap due_of (upd m) ∙ owned_due a (hold m s.surfaces) (m == n);
        same_clients = refl;
        same_loop = refl;
        same_display = refl;
        same_starts = refl;
        distinct =
            update_surface-Unrepeated (λ g. record g { client = some a }) (owned a)
              (λ g. (refl, refl)) n s.surfaces;
        present =
            λ m p. let (k, e) = owned_present a (hold m s.surfaces) (m == n) p in (k, upd m ∙ e);
      },
    )
