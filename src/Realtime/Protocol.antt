-- ===== src/Realtime/Protocol.antt =====
-- services/realtime/src/echoweave/protocol.py: media packets. A byte is a number, and the bytes of a
-- packet are a list of them. The checks of Python's types are those of the model's.
pub mod RoundTrip
use evoagent_os.Base.{
  ℕ, zero, suc, ◌+◌, ◌*◌, ◌/◌, ◌%◌, Bool, true, false, not, ◌&&◌, ◌||◌, List, [], ◌∷◌, ◌++◌, Option,
  none, some, length, ltb, leb, nat_eq, if◌then◌else◌,
}
use evoagent_os.Base.Action.{Result, ok, err}

pub data ℤ : Type 0 where
  pos negsuc : ℕ → ℤ

pub data PacketKind : Type 0 where
  mic_pcm16 tts_pcm16 video_fragment : PacketKind

pub record MediaPacket : Type 0 where
  pub kind : PacketKind
  pub turn_id : ℤ
  pub pts_ms : ℤ
  pub payload : List ℕ

pub data PacketError : Type 0 where
  out_of_range payload_too_long too_short packet_too_long : PacketError
  bad_magic bad_version unknown_kind : PacketError

abbrev pub header_size : ℕ
header_size = 12

abbrev pub uint32_max : ℕ
uint32_max = 4_294_967_295

abbrev pub max_media_payload_bytes : ℕ
max_media_payload_bytes = 33_554_432

abbrev pub max_media_packet_bytes : ℕ
max_media_packet_bytes = header_size + max_media_payload_bytes

-- The code of a packet kind, and `PacketKind(raw_kind)`.
abbrev pub kind_code : PacketKind → ℕ
kind_code mic_pcm16 = 1
kind_code tts_pcm16 = 2
kind_code video_fragment = 3

unfoldable pub packet_kind : ℕ → Option PacketKind
packet_kind raw =
    if nat_eq raw 1
    then some mic_pcm16
    else if nat_eq raw 2
    then some tts_pcm16
    else if nat_eq raw 3
    then some video_fragment
    else none

-- A field "I" of a "<" format: four bytes, the lowest first.
abbrev pub uint32 : ℕ → List ℕ → List ℕ
uint32 n rest = n % 256 ∷ n / 256 % 256 ∷ n / 65_536 % 256 ∷ n / 16_777_216 % 256 ∷ rest

abbrev pub read_uint32 : ℕ → ℕ → ℕ → ℕ → ℕ
read_uint32 a b c d = a + 256 * b + 65_536 * c + 16_777_216 * d

-- `0 <= n <= UINT32_MAX`.
abbrev pub to_uint32 : ℤ → Option ℕ
to_uint32 (pos n) = if leb n uint32_max then some n else none
to_uint32 (negsuc n) = none

-- HEADER.pack(MAGIC, VERSION, int(kind), turn_id, pts_ms), before the payload.
abbrev pub pack_header : PacketKind → ℕ → ℕ → List ℕ → List ℕ
pack_header kind turn_id pts_ms payload =
    69 ∷ 87 ∷ 1 ∷ kind_code kind ∷ uint32 turn_id (uint32 pts_ms payload)

abbrev pack_payload : PacketKind → Option ℕ → Option ℕ → List ℕ → Result PacketError (List ℕ)
pack_payload kind (some turn_id) (some pts_ms) payload =
    if ltb max_media_payload_bytes (length payload)
    then err payload_too_long
    else ok (pack_header kind turn_id pts_ms payload)
pack_payload kind none pts_ms payload = err out_of_range
pack_payload kind (some turn_id) none payload = err out_of_range

unfoldable pub pack_packet : MediaPacket → Result PacketError (List ℕ)
pack_packet p = pack_payload p.kind (to_uint32 p.turn_id) (to_uint32 p.pts_ms) p.payload

-- The fields that HEADER.unpack_from reads, and the bytes behind them. It is called on twelve bytes or
-- more only.
pub record Header : Type 0 where
  pub magic : List ℕ
  pub version : ℕ
  pub kind : ℕ
  pub turn_id : ℕ
  pub pts_ms : ℕ
  pub payload : List ℕ

unfoldable pub unpack_from : List ℕ → Option Header
unpack_from (m₀ ∷ m₁ ∷ v ∷ k ∷ a ∷ b ∷ c ∷ d ∷ e ∷ f ∷ g ∷ h ∷ payload) = some (record {
  magic = m₀ ∷ m₁ ∷ [];
  version = v;
  kind = k;
  turn_id = read_uint32 a b c d;
  pts_ms = read_uint32 e f g h;
  payload = payload;
})
unpack_from _ = none

abbrev pub is_magic : List ℕ → Bool
is_magic (m₀ ∷ m₁ ∷ []) = nat_eq m₀ 69 && nat_eq m₁ 87
is_magic _ = false

unfoldable pub packet_of : Header → Result PacketError MediaPacket
packet_of h =
    if not (is_magic h.magic)
    then err bad_magic
    else if not (nat_eq h.version 1)
    then err bad_version
    else elim (packet_kind h.kind) [
      | none ↦ err unknown_kind
      | some kind ↦ ok (record {
        kind = kind;
        turn_id = pos h.turn_id;
        pts_ms = pos h.pts_ms;
        payload = h.payload;
      })
    ]

unfoldable pub unpack_packet : List ℕ → Result PacketError MediaPacket
unpack_packet bytes =
    if ltb (length bytes) header_size
    then err too_short
    else if ltb max_media_packet_bytes (length bytes)
    then err packet_too_long
    else elim (unpack_from bytes) [ none ↦ err too_short | some h ↦ packet_of h ]
