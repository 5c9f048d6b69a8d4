-- ===== src/Clients.antt =====
-- main.c: the background clients and their pausing while their outputs are not presented
-- ("pause-when-hidden"). A client is known by its address; what kill(2) answers for a process group
-- and what the clock reads come from outside.
pub mod Hidden
pub mod Resume
use swaylock_plugin.Base.{
  ℕ, zero, suc, ◌+◌, ◌-◌, ◌*◌, ◌/◌, Bool, true, false, not, ◌&&◌, ◌||◌, List, [], ◌∷◌, Option, none,
  some, ltb, leb, ◌==◌, if◌then◌else◌,
}
use swaylock_plugin.EventLoop.{Timespec}

-- `struct swaylock_bg_client`, with its address, which also stands for its wl_client; a pid that is
-- not positive is 0, an output is known by its global name, a timer by its address in the loop.
pub record BgClient : Type 0 where
  pub address : ℕ
  pub pid : ℕ
  pub paused : Bool
  pub unique_output : Option ℕ
  pub made_a_registry : Bool
  pub client_connect_timer : Option ℕ

-- `struct swaylock_surface` as far as the clients matter. The last two fields are whether the
-- output's color description is awaited, and whether it has come.
pub record Surface : Type 0 where
  pub output_global_name : ℕ
  pub client : Option ℕ
  pub client_submission_timer : Option ℕ
  pub width : ℕ
  pub height : ℕ
  pub has_buffer : Bool
  pub has_newer_serial : Bool
  pub newest_serial : ℕ
  pub dirty : Bool
  pub created : Bool
  pub has_output_done : Bool
  pub nested_server_output : Bool
  pub plugin_surface : Bool
  pub color_output : Bool
  pub output_desc_current : Bool
  pub frame_pending : Bool
  pub frame_pending_since : Timespec
  pub frame_last_done : Timespec

-- The process groups: which of them are stopped, and whether kill(2) on a group succeeds.
pub record Host : Type 0 where
  pub stopped : ℕ → Bool
  pub kill : ℕ → Bool

-- The milliseconds from `earlier` to `now`, the quotient of the nanoseconds truncated towards 0.
unfoldable pub ms_since : Timespec → Timespec → ℕ
ms_since now earlier =
    let ms = (now.tv_sec - earlier.tv_sec) * 1000 in
    if leb earlier.tv_nsec now.tv_nsec
    then ms + (now.tv_nsec - earlier.tv_nsec) / 1000000
    else ms - (earlier.tv_nsec - now.tv_nsec) / 1000000

unfoldable pub same_bool : Bool → Bool → Bool
same_bool true b = b
same_bool false b = not b

-- SIGSTOP or SIGCONT to the group.
unfoldable pub signal : ℕ → Bool → Host → Host
signal pid paused host = record host {
  stopped = λ p. let before = host.stopped p in if p == pid then paused else before;
}

unfoldable pub set_client_paused : Host → BgClient → Bool → BgClient × Host
unfolding same_bool signal
set_client_paused host bg_client paused =
    if bg_client.pid == 0 || same_bool bg_client.paused paused
    then (bg_client, host)
    else if not (host.kill bg_client.pid)
    then (bg_client, host)
    else (record bg_client { paused = paused }, signal bg_client.pid paused host)

unfoldable pub resume_all_clients : Host → List BgClient → List BgClient × Host
unfolding set_client_paused
resume_all_clients host [] = ([], host)
resume_all_clients host (c ∷ cs) =
    let (c', host₁) = set_client_paused host c false in
    let (cs', host₂) = resume_all_clients host₁ cs in (c' ∷ cs', host₂)

-- `main_client` is the field of `server`.
unfoldable pub client_for_surface : Option ℕ → Surface → Option ℕ
client_for_surface main_client surface = elim surface.client [
  | none ↦ main_client
  | some address ↦ some address
]

unfoldable pub is_client : ℕ → Option ℕ → Bool
is_client address none = false
is_client address (some a) = a == address

-- The loop of `client_is_hidden` with `any_stale`; `clock` reads the time at the i-th surface.
unfoldable pub hidden_from : (ℕ → Timespec) → ℕ → Option ℕ → ℕ → ℕ → List Surface → Bool → Bool
unfolding ms_since client_for_surface is_client
hidden_from clock timeout main_client address i [] any_stale = any_stale
hidden_from clock timeout main_client address i (s ∷ ss) any_stale =
    let same = hidden_from clock timeout main_client address (i + 1) ss any_stale in
    let stale = hidden_from clock timeout main_client address (i + 1) ss true in
    if not (is_client address (client_for_surface main_client s))
    then same
    else if s.frame_pending
    then (if leb timeout (ms_since (clock i) s.frame_pending_since) then stale else false)
    else if not (s.frame_last_done.tv_sec == 0)
        && ltb (ms_since (clock i) s.frame_last_done) timeout
    then false
    else same

unfoldable pub client_is_hidden : (ℕ → Timespec) → ℕ → Option ℕ → List Surface → BgClient → Bool
unfolding hidden_from
client_is_hidden clock timeout main_client surfaces bg_client =
    hidden_from clock timeout main_client bg_client.address 0 surfaces false

-- The loop of `hidden_check_timeout`; `clock c` is the clock during the client at address `c`.
unfoldable pub check_clients :
    (ℕ → ℕ → Timespec) → ℕ → Option ℕ → List Surface → Host → List BgClient → List BgClient × Host
unfolding set_client_paused client_is_hidden
check_clients clock timeout main_client surfaces host [] = ([], host)
check_clients clock timeout main_client surfaces host (c ∷ cs) =
    let hidden = client_is_hidden (clock c.address) timeout main_client surfaces c in
    let (c', host₁) = set_client_paused host c hidden in
    let (cs', host₂) = check_clients clock timeout main_client surfaces host₁ cs in
    (c' ∷ cs', host₂)
