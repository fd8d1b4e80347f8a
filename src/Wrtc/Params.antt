-- ===== src/Wrtc/Params.antt =====
-- wrtc/jsonparams/types.go, and of the package sdp of pion the descriptions that the code reads and
-- builds. A text that is only compared is a native one; where the code looks into it, its bytes.
-- Go's empty text stands for a JSON key that is not there.
pub mod Offer
pub mod Codecs
pub mod Exts
pub mod Remote
pub mod Mirror
pub mod Candidates
pub mod Blob
mod Tests
use Prim.Native.String.{String}
use gotgcall.Base.{Bytes, List, ℕ, ℤ}

pub record Fingerprint : Type 0 where
  pub hash : Bytes
  pub setup : Bytes
  pub digest : Bytes

-- SSRCGroup
pub record SsrcGroup : Type 0 where
  pub semantics : Bytes
  pub ssrcs : List ℕ

-- RTCPFb
pub record RtcpFb : Type 0 where
  pub fb_type : Bytes
  pub fb_subtype : Bytes

-- PayloadType; `parameters` is the map by its entries.
pub record PayloadType : Type 0 where
  pub payload_id : ℤ
  pub codec : Bytes
  pub clockrate : ℤ
  pub channels : ℤ
  pub parameters : List (Bytes × Bytes)
  pub rtcp_fbs : List RtcpFb

-- RTPHdrExt
pub record HdrExt : Type 0 where
  pub ext_id : ℤ
  pub uri : Bytes

-- LocalParams
pub record LocalParams : Type 0 where
  pub ufrag : Bytes
  pub pwd : Bytes
  pub fingerprints : List Fingerprint
  pub ssrc_groups : List SsrcGroup
  pub payload_types : List PayloadType
  pub hdr_exts : List HdrExt
  pub ssrc : ℕ

-- Candidate; its field ID, which nothing reads, is left out.
pub record Candidate : Type 0 where
  pub generation : Bytes
  pub component : Bytes
  pub protocol : Bytes
  pub port : Bytes
  pub ip : Bytes
  pub foundation : Bytes
  pub priority : Bytes
  pub cand_type : Bytes
  pub network : Bytes
  pub rel_addr : Bytes
  pub rel_port : Bytes
  pub tcp_type : Bytes

-- RemoteParams, with the fields of its Transport
pub record RemoteParams : Type 0 where
  pub remote_ufrag : Bytes
  pub remote_pwd : Bytes
  pub remote_prints : List Fingerprint
  pub candidates : List Candidate

-- sdp.Attribute
pub record Attribute : Type 0 where
  pub key : String
  pub value : Bytes

-- sdp.MediaDescription: its MediaName, the connection information of the section as it is printed
-- (empty for none), its attributes.
pub record Section : Type 0 where
  pub media : String
  pub section_port : ℕ
  pub protos : List Bytes
  pub formats : List Bytes
  pub connection : Bytes
  pub attributes : List Attribute

-- sdp.SessionDescription
pub record Session : Type 0 where
  pub username : Bytes
  pub session_id : ℕ
  pub session_version : ℕ
  pub origin_address : Bytes
  pub session_name : Bytes
  pub session_attributes : List Attribute
  pub sections : List Section
