-- ===== src/Session/Presented.antt =====
-- The configures and the presentations of outputs leave every output that is not created without a
-- client and a timer.
use swaylock_plugin.Base.{ℕ, ◌≡◌, refl, sym, ◌∙◌, subst, Bool, true, false, Option, none, some}
use swaylock_plugin.EventLoop.{Timespec}
use swaylock_plugin.Clients.{BgClient, Surface, client_for_surface}
use swaylock_plugin.Session.{Session, Outside, find_client, find_surface}
use swaylock_plugin.Session.Outputs.{arm_submission}
use swaylock_plugin.Session.Frames.{
  take_size, arm_after, configure_found, configure_surface, resume_found, resume_client_for_surface,
  presented_found, bg_frame_handle_done,
}
use swaylock_plugin.Session.Linked.{Kept, nothing}
use swaylock_plugin.Session.Created.{Ready}
use swaylock_plugin.Session.Framed.{take_size-Untied}
use swaylock_plugin.Session.Fresh.{Gives, Gives-if, Holds, all_update}
use swaylock_plugin.Session.Ready.{ReadyMade, same_Ready, all_map, made_all, untied-Ready}

-- A configure.
take_size-created :
    (display can : Bool) (serial width height : ℕ) (g : Surface)
    → (take_size display can serial width height g).0.created ≡ g.created
unfolding take_size
take_size-created true can serial width height g = refl
take_size-created false true serial width height g = refl
take_size-created false false serial width height g = refl

arm_after-Ready :
    (b : Bool) (o : Outside) (n : ℕ) (s : Session)
    → Holds (ReadyMade n) s
    → Holds Ready (arm_after b o n s)
unfolding arm_after arm_submission
arm_after-Ready false o n s h = all_map (ReadyMade n) Ready s.surfaces (λ g p. p.0) h
arm_after-Ready true o n s h =
    all_update (ReadyMade n) Ready _ n s.surfaces
      (λ g e p d. let no : Path Bool true false = sym (p.1 e) ∙ d in cc no) (λ g e p. p.0) h

pub configure_surface-Ready :
    (o : Outside) (n serial width height : ℕ) (f : Surface) (s : Session)
    → find_surface n s.surfaces ≡ some f
    → f.created ≡ true
    → Kept nothing s
    → Holds Ready s
    → Gives (Holds Ready) (configure_surface o n serial width height s)
unfolding configure_surface configure_found
configure_surface-Ready o n serial width height f s found made k h =
    let take : Surface → Surface =
      λ g. (take_size s.display (o.can_create n) serial width height g).0 in
    let same = take_size-Untied s.display (o.can_create n) serial width height in
    let old = take_size-created s.display (o.can_create n) serial width height in
    subst (λ x. Gives (Holds Ready) (configure_found o n serial width height x s)) (sym found)
      (arm_after-Ready _ o n _ (
        all_update (ReadyMade n) (ReadyMade n) take n s.surfaces
          (λ g e p. (same_Ready g (take g) (old g) (same g).1 p.0, λ d. old g ∙ p.1 e)) (λ g e p. p)
          (made_all n f s k found made h)))

-- A presentation.
resume_found-Ready :
    (a : ℕ) (c : Option BgClient) (s : Session)
    → Holds Ready s
    → Gives (Holds Ready) (resume_found a c s)
unfolding resume_found
resume_found-Ready a none s h = tt
resume_found-Ready a (some c) s h = Gives-if (Holds Ready) c.paused _ _ h h

resume-Ready :
    (c : Option ℕ) (s : Session)
    → Holds Ready s
    → Gives (Holds Ready) (resume_client_for_surface c s)
unfolding resume_client_for_surface
resume-Ready none s h = h
resume-Ready (some a) s h = resume_found-Ready a (find_client a s.clients) s h

presented_found-Ready :
    (n : ℕ) (now : Timespec) (f : Option Surface) (s : Session)
    → Holds Ready s
    → Gives (Holds Ready) (presented_found n now f s)
unfolding presented_found
presented_found-Ready n now none s h = tt
presented_found-Ready n now (some f) s h = resume-Ready (client_for_surface s.main_client f) _ (
    untied-Ready (λ g. record g { frame_pending = false; frame_last_done = now }) n s
      (λ g. (refl, refl)) h)

pub bg_frame_handle_done-Ready :
    (n : ℕ) (now : Timespec) (s : Session)
    → Holds Ready s
    → Gives (Holds Ready) (bg_frame_handle_done n now s)
unfolding bg_frame_handle_done
bg_frame_handle_done-Ready n now s h = presented_found-Ready n now (find_surface n s.surfaces) s h
