-- ===== src/Client/Options.antt =====
-- gotgcall.go: the options of New and their defaults, and what the packages below make of them:
-- wrtc/peer_factory.go and wrtc/native/factory.go (NewFactory), instances/group_call.go
-- (NewGroupCall), utils/synccallback.go (NewDispatcher), wrtc/native/certpool.go (NewCertPool).
-- Loggers, servers and network types are numbers here; durations are in nanoseconds.
pub mod Unused
use Prim.Native.String.{String}
use gotgcall.Base.{
  Bool, List, Option, [], false, if◌then◌else◌, none, some, text_eq, true, ℕ, ℤ, ◌==◌, ◌∷◌, pos,
  negsuc,
}

-- config
pub record Config : Type 0 where
  pub logger : ℕ
  pub ffmpeg_path : String
  pub ice_servers : List ℕ
  pub network_types : List ℕ
  pub cert_pool_size : ℤ
  pub dispatch_buf : ℤ
  pub connect_timeout : ℤ
  pub ice_disconnect : ℤ
  pub ice_failed : ℤ
  pub ice_keepalive : ℤ
  pub pre_connect_delay : ℤ
  pub max_binding_reqs : ℕ
  pub shared_udp_mux : Bool
  pub ffmpeg_stderr_log : Bool
  pub trace_as_debug : Bool
  pub log_candidates : Bool

-- The logger that discards, and the one that WithDebugLogs makes.
abbrev pub discard_logger : ℕ
discard_logger = 0

abbrev pub debug_logger : ℕ
debug_logger = 1

-- defaultConfig
abbrev pub default_config : Config
default_config = record {
  logger = discard_logger;
  ffmpeg_path = "ffmpeg";
  ice_servers = [];
  network_types = [];
  cert_pool_size = pos 8;
  dispatch_buf = pos 256;
  connect_timeout = pos 0;
  ice_disconnect = pos 0;
  ice_failed = pos 0;
  ice_keepalive = pos 0;
  pre_connect_delay = pos 0;
  max_binding_reqs = 0;
  shared_udp_mux = false;
  ffmpeg_stderr_log = false;
  trace_as_debug = false;
  log_candidates = false;
}

-- The WithXxx functions.
pub data ClientOption : Type 0 where
  with_logger : Option ℕ → ClientOption
  with_ffmpeg_path : String → ClientOption
  with_shared_udp_mux with_debug_logs with_ffmpeg_stderr_log : ClientOption
  with_trace_logs with_candidate_logs with_verbose_logs : ClientOption
  with_cert_pool with_dispatch_buffer with_connect_timeout with_delay : ℤ → ClientOption
  with_ice_servers with_network_types : List ℕ → ClientOption
  with_ice_timeouts : ℤ → ℤ → ℤ → ClientOption
  with_max_binding_reqs : ℕ → ClientOption

-- `if d > 0 { … = d }`
abbrev pub if_positive : ℤ → ℤ → ℤ
if_positive (pos n) old = if n == 0 then old else pos n
if_positive (negsuc n) old = old

abbrev pub if_given : List ℕ → List ℕ → List ℕ
if_given [] old = old
if_given (t ∷ ts) old = t ∷ ts

abbrev pub if_logger : Option ℕ → ℕ → ℕ
if_logger none old = old
if_logger (some l) old = l

unfoldable pub apply_option : ClientOption → Config → Config
apply_option (with_logger l) c = record c { logger = if_logger l c.logger }
apply_option (with_ffmpeg_path p) c = record c {
  ffmpeg_path = if text_eq p "" then c.ffmpeg_path else p;
}
apply_option with_shared_udp_mux c = record c { shared_udp_mux = true }
apply_option with_debug_logs c = record c { logger = debug_logger }
apply_option with_ffmpeg_stderr_log c = record c { ffmpeg_stderr_log = true }
apply_option with_trace_logs c = record c { trace_as_debug = true }
apply_option with_candidate_logs c = record c { log_candidates = true }
apply_option with_verbose_logs c = record c {
  logger = debug_logger;
  log_candidates = true;
  trace_as_debug = true;
}
apply_option (with_cert_pool n) c = record c { cert_pool_size = n }
apply_option (with_dispatch_buffer n) c = record c { dispatch_buf = if_positive n c.dispatch_buf }
apply_option (with_connect_timeout d) c = record c {
  connect_timeout = if_positive d c.connect_timeout;
}
apply_option (with_delay d) c = record c { pre_connect_delay = d }
apply_option (with_ice_servers s) c = record c { ice_servers = s }
apply_option (with_network_types t) c = record c { network_types = if_given t c.network_types }
apply_option (with_ice_timeouts d f k) c = record c {
  ice_disconnect = if_positive d c.ice_disconnect;
  ice_failed = if_positive f c.ice_failed;
  ice_keepalive = if_positive k c.ice_keepalive;
}
apply_option (with_max_binding_reqs n) c = record c {
  max_binding_reqs = if n == 0 then c.max_binding_reqs else n;
}

-- The loop of New over its options
unfoldable pub configure : List ClientOption → Config → Config
unfolding apply_option
configure [] c = c
configure (o ∷ os) c = configure os (apply_option o c)

-- What comes to work: the certificates kept ready (NewCertPool), the delay of Connect, the gate of
-- SetSource, the buffer of the dispatcher, and the rest as it was given.
pub record Settings : Type 0 where
  pub pool_size : ℕ
  pub delay : ℕ
  pub gate_timeout : ℕ
  pub queue_cap : ℕ
  pub types : List ℕ
  pub servers : List ℕ
  pub udp_mux : Bool
  pub log_to : ℕ
  pub ffmpeg : String
  pub stderr_log : Bool

abbrev pub positive_or : ℕ → ℤ → ℕ
positive_or d (pos n) = if n == 0 then d else n
positive_or d (negsuc n) = d

abbrev pub clamped : ℤ → ℕ
clamped (pos n) = n
clamped (negsuc n) = 0

-- NewFactory: 0 is 8, and NewCertPool keeps none where the size is negative.
abbrev pub pool_of : ℤ → ℕ
pool_of (pos n) = if n == 0 then 8 else n
pool_of (negsuc n) = 0

-- `[]ice.NetworkType{UDP4, UDP6}` where none are given
abbrev pub types_of : List ℕ → List ℕ
types_of [] = 1 ∷ 2 ∷ []
types_of (t ∷ ts) = t ∷ ts

unfoldable pub settings : Config → Settings
settings c = record {
  pool_size = pool_of c.cert_pool_size;
  delay = clamped c.pre_connect_delay;
  gate_timeout = positive_or 10000000000 c.connect_timeout;
  queue_cap = positive_or 256 c.dispatch_buf;
  types = types_of c.network_types;
  servers = c.ice_servers;
  udp_mux = c.shared_udp_mux;
  log_to = c.logger;
  ffmpeg = c.ffmpeg_path;
  stderr_log = c.ffmpeg_stderr_log;
}
