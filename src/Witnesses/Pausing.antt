-- ===== src/Witnesses/Pausing.antt =====
-- Two clients, one of them stopped.
use swaylock_plugin.Base.{
  ℕ, ◌≡◌, refl, [], ◌∷◌, true, false, not, ◌&&◌, none, some, arith, All, ◌==◌,
}
use swaylock_plugin.EventLoop.{Timespec}
use swaylock_plugin.Clients.{BgClient, Surface, Host, client_is_hidden, resume_all_clients}
use swaylock_plugin.Clients.Hidden.{stale, shown, anywhere, client_is_hidden_judged}
use swaylock_plugin.Clients.Resume.{IsAwake, resume_all_clients_wakes}

abbrev host : Host
host = record { stopped = λ p. p == 11; kill = λ p. true }

abbrev running : BgClient
running = record {
  address = 1;
  pid = 10;
  paused = false;
  unique_output = none;
  made_a_registry = true;
  client_connect_timer = none;
}

abbrev frozen : BgClient
frozen = record running { address = 2; pid = 11; paused = true }

abbrev dark : Surface
dark = record {
  output_global_name = 7;
  client = none;
  client_submission_timer = none;
  width = 100;
  height = 50;
  has_buffer = true;
  has_newer_serial = false;
  newest_serial = 0;
  dirty = false;
  created = true;
  has_output_done = true;
  nested_server_output = true;
  plugin_surface = true;
  color_output = false;
  output_desc_current = false;
  frame_pending = true;
  frame_pending_since = record { tv_sec = 1; tv_nsec = 0 };
  frame_last_done = record { tv_sec = 1; tv_nsec = 0 };
}

abbrev clock : ℕ → Timespec
clock i = record { tv_sec = 5; tv_nsec = 0 }

client_is_hidden_judged_example : client_is_hidden clock 3000 (some 2) (dark ∷ []) frozen ≡ (
    anywhere (stale clock 3000 (some 2) 2) 0 (dark ∷ [])
    && not (anywhere (shown clock 3000 (some 2) 2) 0 (dark ∷ [])))
client_is_hidden_judged_example = client_is_hidden_judged clock 3000 (some 2) (dark ∷ []) frozen

resume_all_clients_wakes_example :
    All (IsAwake (resume_all_clients host (running ∷ frozen ∷ [])).1) (running ∷ frozen ∷ [])
resume_all_clients_wakes_example = resume_all_clients_wakes host (running ∷ frozen ∷ []) (
  record { awake = λ e. refl; reachable = λ e. cc },
  (record { awake = λ e. cc; reachable = λ e. (omega arith, refl) }, tt),
)
