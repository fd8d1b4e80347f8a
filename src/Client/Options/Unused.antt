-- ===== src/Client/Options/Unused.antt =====
-- Options that come to nothing.
use gotgcall.Client.Options.{
  ClientOption, Config, apply_option, configure, default_config, settings, with_candidate_logs,
  with_cert_pool, with_connect_timeout, with_debug_logs, with_delay, with_dispatch_buffer,
  with_ffmpeg_path, with_ffmpeg_stderr_log, with_ice_servers, with_ice_timeouts, with_logger,
  with_max_binding_reqs, with_network_types, with_shared_udp_mux, with_trace_logs,
  with_verbose_logs,
}
use gotgcall.Base.{
  Bool, Bool-cases, List, [], arith, false, if◌then◌else◌, inl, inr, true, ◌∷◌, ◌≡◌,
}

-- WithICETimeouts, WithICEMaxBindingRequests, and the two kinds of logs that no package reads.
abbrev pub is_unused : ClientOption → Bool
is_unused (with_logger l) = false
is_unused (with_ffmpeg_path p) = false
is_unused with_shared_udp_mux = false
is_unused with_debug_logs = false
is_unused with_ffmpeg_stderr_log = false
is_unused with_trace_logs = true
is_unused with_candidate_logs = true
is_unused with_verbose_logs = false
is_unused (with_cert_pool n) = false
is_unused (with_dispatch_buffer n) = false
is_unused (with_connect_timeout n) = false
is_unused (with_delay n) = false
is_unused (with_ice_servers s) = false
is_unused (with_network_types t) = false
is_unused (with_ice_timeouts d f k) = true
is_unused (with_max_binding_reqs n) = true

-- The options without those.
unfoldable pub used : List ClientOption → List ClientOption
used [] = []
used (o ∷ os) = let rest = used os in if is_unused o then rest else o ∷ rest

-- The configurations agree but for what those options set.
record Agree (c d : Config) : Type 0 where
  logger : c.logger ≡ d.logger
  ffmpeg_path : c.ffmpeg_path ≡ d.ffmpeg_path
  ice_servers : c.ice_servers ≡ d.ice_servers
  network_types : c.network_types ≡ d.network_types
  cert_pool_size : c.cert_pool_size ≡ d.cert_pool_size
  dispatch_buf : c.dispatch_buf ≡ d.dispatch_buf
  connect_timeout : c.connect_timeout ≡ d.connect_timeout
  pre_connect_delay : c.pre_connect_delay ≡ d.pre_connect_delay
  shared_udp_mux : c.shared_udp_mux ≡ d.shared_udp_mux
  ffmpeg_stderr_log : c.ffmpeg_stderr_log ≡ d.ffmpeg_stderr_log

Agree-refl : (c : Config) → Agree c c
Agree-refl c = ground arith

apply-Agree :
    (o : ClientOption) (c d : Config) → Agree c d → Agree (apply_option o c) (apply_option o d)
unfolding apply_option
apply-Agree o c d a = ground arith

unused-Agree :
    (o : ClientOption) (c d : Config) → is_unused o ≡ true → Agree c d → Agree (apply_option o c) d
unfolding apply_option
unused-Agree o c d u a = ground arith

used-Agree :
    (os : List ClientOption) (c d : Config)
    → Agree c d
    → Agree (configure os c) (configure (used os) d)
unfolding configure used
used-Agree [] c d a = a
used-Agree (o ∷ os) c d a = elim (Bool-cases (is_unused o)) [
  | inl u ↦ rw u (used-Agree os (apply_option o c) d (unused-Agree o c d u a))
  | inr n ↦ rw n (used-Agree os (apply_option o c) (apply_option o d) (apply-Agree o c d a))
]

Agree-settings : (c d : Config) → Agree c d → settings c ≡ settings d
unfolding settings
Agree-settings c d a = ground arith

-- WithICETimeouts, WithICEMaxBindingRequests, WithPionTraceLogs and WithICECandidateLogs change
-- nothing: whatever the options of New are, without these they give the same settings.
pub configure-used :
    (os : List ClientOption)
    → settings (configure os default_config) ≡ settings (configure (used os) default_config)
configure-used os =
    Agree-settings (configure os default_config) (configure (used os) default_config)
      (used-Agree os default_config default_config (Agree-refl default_config))
