-- ===== src/Session/Served.antt =====
-- What the nested server reports of its clients keeps the invariant.
use swaylock_plugin.Base.{
  ◌≡◌, refl, ap, ◌∙◌, Bool, true, false, List, [], ◌∷◌, some, returns, ◌>>=◌,
}
use swaylock_plugin.Clients.{Surface}
use swaylock_plugin.Session.{Session, Outside, find_surface}
use swaylock_plugin.Session.Framed.{nested_frame-Kept}
use swaylock_plugin.Session.Commands.{client_resource_create, client_destroyed}
use swaylock_plugin.Session.Handlers.{
  ClientReport, resource_created, client_gone, frame_committed, serve, serve_all, end_dispatch,
  dispatch_nested,
}
use swaylock_plugin.Session.Ties.{Tie}
use swaylock_plugin.Session.Linked.{Kept, nothing, ties_of}
use swaylock_plugin.Session.Settled.{setup_clientless_mode-Settled}
use swaylock_plugin.Session.Told.{Able, client_resource_create-Kept, client_destroyed-Kept}

-- The listener of a record is told of its own client, while the record is there; a frame is for an
-- output that is there.
abbrev pub Known : ClientReport → Session → Type 0
Known (resource_created a client) s = (client ≡ a) × ((t : Tie) × (ties_of s a ≡ some t))
Known (client_gone a client) s = (client ≡ a) × ((t : Tie) × (ties_of s a ≡ some t))
Known (frame_committed n ack now) s = (f : Surface) × (find_surface n s.surfaces ≡ some f)

abbrev pub Delivered : Outside → List ClientReport → Session → Type 0
Delivered o [] s = Unit {0}
Delivered o (e ∷ es) s = Known e s × ((s' : Session) → serve o e s ≡ returns s' → Delivered o es s')

pub serve-Kept :
    (o : Outside) (e : ClientReport) (s : Session)
    → Able o
    → s.display ≡ true
    → Known e s
    → Kept nothing s
    → (s' : Session) × (serve o e s ≡ returns s') × Kept nothing s' × (s'.display ≡ true)
unfolding serve
serve-Kept o (resource_created a client) s able on (same, (t, tied)) k =
    let (s', run, kept, display) = client_resource_create-Kept a t s tied k in
    (s', ap (λ c. client_resource_create a c s) same ∙ run, kept, display ∙ on)
serve-Kept o (client_gone a client) s able on (same, (t, tied)) k =
    let (s', run, kept, display) = client_destroyed-Kept o a t s able on tied k in
    (s', ap (λ c. client_destroyed o a c s) same ∙ run, kept, display)
serve-Kept o (frame_committed n ack now) s able on (f, found) k =
    let (s', run, kept, display) = nested_frame-Kept n ack now f s found k in
    (s', run, kept, display ∙ on)

serve_all-Kept :
    (o : Outside) (es : List ClientReport) (s : Session)
    → Able o
    → s.display ≡ true
    → Delivered o es s
    → Kept nothing s
    → (s' : Session) × (serve_all o es s ≡ returns s') × Kept nothing s'
unfolding serve_all
serve_all-Kept o [] s able on d k = (s, refl, k)
serve_all-Kept o (e ∷ es) s able on (known, more) k =
    let (s₁, run, k₁, on₁) = serve-Kept o e s able on known k in
    let (s₂, run₂, k₂) = serve_all-Kept o es s₁ able on₁ (more s₁ run) k₁ in
    (s₂, ap (λ r. r >>= serve_all o es) run ∙ run₂, k₂)

end_dispatch-Kept :
    (b : Bool) (o : Outside) (s : Session)
    → Kept nothing s
    → (s' : Session) × (end_dispatch b o s ≡ returns s')
      × Kept nothing s'
      × (b ≡ true → s'.display ≡ false)
unfolding end_dispatch
end_dispatch-Kept false o s k = (s, refl, k, λ e. cc e)
end_dispatch-Kept true o s k =
    let (s', run, d) = setup_clientless_mode-Settled o nothing s k in
    (s', run, d.kept, λ e. d.ended)

-- A turn of the nested server, while it stands, returns and keeps the invariant.
pub dispatch_nested-Kept :
    (o : Outside) (es : List ClientReport) (s : Session)
    → Able o
    → s.display ≡ true
    → Delivered o es s
    → Kept nothing s
    → (s' : Session) × (dispatch_nested o es s ≡ returns s') × Kept nothing s'
unfolding dispatch_nested
dispatch_nested-Kept o es s able on d k =
    let (s₁, run, k₁) = serve_all-Kept o es s able on d k in
    let (s₂, run₂, k₂, _) = end_dispatch-Kept s₁.start_clientless_mode o s₁ k₁ in
    (s₂, ap (λ r. r >>= λ t. end_dispatch t.start_clientless_mode o t) run ∙ run₂, k₂)
