-- ===== src/Checker/Pam/Handed.antt =====
-- What the process that checks passwords answers, and what PAM gets to see.
use swaylock_plugin.Base.{
  ℕ, zero, suc, ◌≡◌, ◌⊎◌, inl, inr, refl, ap, Bool, true, false, List, [], ◌∷◌, Option, none, some,
  Bool-cases, replicate, length,
}
use swaylock_plugin.Checker.Pam.{
  MsgStyle, prompt_echo_off, prompt_echo_on, error_msg, text_info, other_style, Conversation,
  Allocator, Dialog, verdict, ask, text_of, strings, prompted, converse, handle_conversation,
  pam_authenticate,
}

-- No string, and the password is as it was; or the password once, and it is gone.
abbrev Handed : List (List ℕ) → Option (List ℕ) → Option (List ℕ) → Type 0
Handed given before after =
    ((given ≡ []) × (after ≡ before))
    ⊎ ((p : List ℕ) × (before ≡ some p) × (given ≡ text_of p ∷ []) × (after ≡ none))

strings-nulls : (n : ℕ) → strings (replicate n none) ≡ []
unfolding strings
strings-nulls zero = refl
strings-nulls (suc n) = strings-nulls n

Handed-none :
    (given : List (List ℕ)) (after : Option (List ℕ))
    → Handed given none after
    → (given ≡ []) × (after ≡ none)
Handed-none given after (inl h) = h
Handed-none given after (inr (p, e, _, _)) = cc (e)

prompted-Handed :
    (strdup : Bool) (left : ℕ) (pw : Option (List ℕ)) (rest : Conversation)
    → Handed (strings rest.replies) none rest.password
    → Handed
        (strings (prompted strdup left pw rest).replies)
        pw
        (prompted strdup left pw rest).password
unfolding prompted strings
prompted-Handed strdup left none rest h = inl (strings-nulls left, refl)
prompted-Handed true left (some p) rest h =
    let (none_given, gone) = Handed-none _ _ h in
    inr (p, refl, ap (λ xs. text_of p ∷ xs) none_given, gone)
prompted-Handed false left (some p) rest h = inl (strings-nulls left, refl)

converse-Handed :
    (strdup : Bool) (msgs : List MsgStyle) (pw : Option (List ℕ))
    → Handed (strings (converse strdup msgs pw).replies) pw (converse strdup msgs pw).password
unfolding converse strings
converse-Handed strdup [] pw = inl (refl, refl)
converse-Handed strdup (prompt_echo_off ∷ msgs) pw =
    prompted-Handed strdup (length msgs) pw _ (converse-Handed strdup msgs none)
converse-Handed strdup (prompt_echo_on ∷ msgs) pw =
    prompted-Handed strdup (length msgs) pw _ (converse-Handed strdup msgs none)
converse-Handed strdup (error_msg ∷ msgs) pw = converse-Handed strdup msgs pw
converse-Handed strdup (text_info ∷ msgs) pw = converse-Handed strdup msgs pw
converse-Handed strdup (other_style ∷ msgs) pw = converse-Handed strdup msgs pw

handle_conversation-Handed :
    (alloc : Allocator) (msgs : List MsgStyle) (pw : Option (List ℕ))
    → Handed
        (strings (handle_conversation alloc msgs pw).replies)
        pw
        (handle_conversation alloc msgs pw).password
unfolding handle_conversation strings
handle_conversation-Handed alloc msgs pw = elim (Bool-cases alloc.calloc) [
  | inl c ↦ rw c (converse-Handed alloc.strdup msgs pw)
  | inr c ↦ rw c (inl (refl, refl))
]

pam_authenticate_empty : (d : Dialog) → (pam_authenticate d none).1 ≡ []
unfolding pam_authenticate
pam_authenticate_empty (verdict status) = refl
pam_authenticate_empty (ask alloc msgs next) =
    let conv = handle_conversation alloc msgs none in
    let (none_given, gone) = Handed-none _ _ (handle_conversation-Handed alloc msgs none) in
    rw (none_given, gone) (pam_authenticate_empty (next conv.status conv.replies))

-- Whatever PAM asks during one authentication, and whichever allocations fail, it is given
-- either no string or the text of the password once.
pub pam_authenticate_once :
    (d : Dialog) (buf : List ℕ)
    → ((pam_authenticate d (some buf)).1 ≡ [])
      ⊎ ((pam_authenticate d (some buf)).1 ≡ text_of buf ∷ [])
unfolding pam_authenticate
pam_authenticate_once (verdict status) buf = inl refl
pam_authenticate_once (ask alloc msgs next) buf =
    let conv = handle_conversation alloc msgs (some buf) in
    elim (handle_conversation-Handed alloc msgs (some buf)) [
      | inl (none_given, kept) ↦
          rw (none_given, kept) (pam_authenticate_once (next conv.status conv.replies) buf)
      | inr (p, e, given, gone) ↦
          let same : p ≡ buf = cc in
          inr (rw (given, gone, same, pam_authenticate_empty (next conv.status conv.replies)) refl)
    ]
