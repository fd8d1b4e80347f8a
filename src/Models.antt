-- ===== src/Models.antt =====
-- The package models: the enums, the media state and the sentinel errors. Go's enums are integers;
-- the values outside their constants, which nothing in the repository makes, are left out.
use gotgcall.Base.{ℕ, Bool, true, false, ◌&&◌}

pub data Device : Type 0 where
  microphone camera : Device

pub data StreamType : Type 0 where
  audio video : StreamType

-- MediaState
pub record MediaState : Type 0 where
  pub muted : Bool
  pub paused : Bool
  pub video_stopped : Bool
  pub presentation_paused : Bool

pub data ConnState : Type 0 where
  connecting connected disconnected failed closed : ConnState

-- The sentinels of errors.go, by which callers branch (`errors.Is`); the text wrapped round one is
-- left out. `foreign` is an error made elsewhere (the context's, ffmpeg's, a reader's).
pub data Error : Type 0 where
  connection_exists connection_not_found connection_failed invalid_params : Error
  unsupported_call_mode ffmpeg_spawn ffmpeg_crashed file_error client_closed : Error
  internal not_connected wrong_mode no_source seek_unsupported : Error
  foreign : ℕ → Error

abbrev pub bool_eq : Bool → Bool → Bool
bool_eq true b = b
bool_eq false true = false
bool_eq false false = true

-- `==` on MediaState
abbrev pub media_eq : MediaState → MediaState → Bool
media_eq s t =
    bool_eq s.muted t.muted
    && bool_eq s.paused t.paused
    && bool_eq s.video_stopped t.video_stopped
    && bool_eq s.presentation_paused t.presentation_paused

abbrev pub is_connected : ConnState → Bool
is_connected connected = true
is_connected _ = false

abbrev pub is_closed : ConnState → Bool
is_closed closed = true
is_closed _ = false

-- Failed or Closed
abbrev pub is_terminal : ConnState → Bool
is_terminal failed = true
is_terminal closed = true
is_terminal _ = false
