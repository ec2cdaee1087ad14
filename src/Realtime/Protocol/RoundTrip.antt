-- ===== src/Realtime/Protocol/RoundTrip.antt =====
-- protocol.py: `pack_packet` against `unpack_packet`.
use evoagent_os.Base.{
  ℕ, ◌+◌, ◌/◌, ◌%◌, ◌<◌, ◌≤◌, ◌≡◌, refl, subst, arith, Bool, true, false, List, [], ◌∷◌, some,
  length, ltb, leb, nat_eq, all, Option-cases, inl, inr, Bool-cases, and_true,
}
use evoagent_os.Base.Action.{ok}
use evoagent_os.Realtime.Protocol.{
  ℤ, pos, negsuc, is_magic, header_size, PacketKind, mic_pcm16, tts_pcm16, video_fragment,
  kind_code, packet_kind, uint32, read_uint32, uint32_max, MediaPacket, Header, unpack_from,
  packet_of, pack_packet, unpack_packet, pack_header, max_media_payload_bytes,
}

abbrev pub is_byte : ℕ → Bool
is_byte b = ltb b 256

packet_kind-code : (kind : PacketKind) → packet_kind (kind_code kind) ≡ some kind
unfolding packet_kind
packet_kind-code mic_pcm16 = refl
packet_kind-code tts_pcm16 = refl
packet_kind-code video_fragment = refl

read-uint32 :
    (n : ℕ)
    → n ≤ uint32_max
    → read_uint32 (n % 256) (n / 256 % 256) (n / 65_536 % 256) (n / 16_777_216 % 256) ≡ n
read-uint32 n h = omega arith

uint32-read :
    (a b c d : ℕ) (rest : List ℕ)
    → a < 256
    → b < 256
    → c < 256
    → d < 256
    → uint32 (read_uint32 a b c d) rest ≡ a ∷ b ∷ c ∷ d ∷ rest
uint32-read a b c d rest ha hb hc hd =
    let e₀ : read_uint32 a b c d % 256 ≡ a = omega arith in
    let e₁ : read_uint32 a b c d / 256 % 256 ≡ b = omega arith in
    let e₂ : read_uint32 a b c d / 65_536 % 256 ≡ c = omega arith in
    let e₃ : read_uint32 a b c d / 16_777_216 % 256 ≡ d = omega arith in rw (e₀, e₁, e₂, e₃)

-- The header of a packet reads back.
unpack_from-pack :
    (kind : PacketKind) (t p : ℕ) (payload : List ℕ)
    → t ≤ uint32_max
    → p ≤ uint32_max
    → unpack_from (pack_header kind t p payload)
      ≡ some (record {
        magic = 69 ∷ 87 ∷ [];
        version = 1;
        kind = kind_code kind;
        turn_id = t;
        pts_ms = p;
        payload = payload;
      })
unfolding unpack_from
unpack_from-pack kind t p payload ht hp = rw (read-uint32 t ht, read-uint32 p hp)

ltb-false : (a b : ℕ) → b ≤ a → ltb a b ≡ false
ltb-false a b h = ground arith

unpack-header :
    (kind : PacketKind) (t p : ℕ) (payload : List ℕ)
    → t ≤ uint32_max
    → p ≤ uint32_max
    → length payload ≤ max_media_payload_bytes
    → unpack_packet (pack_header kind t p payload)
      ≡ ok (record { kind = kind; turn_id = pos t; pts_ms = pos p; payload = payload })
unfolding unpack_packet packet_of
unpack-header kind t p payload ht hp hl =
    let l : ltb (length (pack_header kind t p payload)) 12 ≡ false =
      ltb-false (length (pack_header kind t p payload)) 12 (omega arith) in
    let u : ltb 33_554_444 (length (pack_header kind t p payload)) ≡ false =
      ltb-false 33_554_444 (length (pack_header kind t p payload)) (omega arith) in
    rw (l, u, unpack_from-pack kind t p payload ht hp, packet_kind-code kind)

leb_le : (a b : ℕ) → leb a b ≡ true → a ≤ b
leb_le a b h = ground arith

-- What a packet that can be packed looks like.
pack_packet-eq-ok :
    (kind : PacketKind) (t s : ℕ) (payload bytes : List ℕ)
    → pack_packet (record { kind = kind; turn_id = pos t; pts_ms = pos s; payload = payload })
      ≡ ok bytes
    → (t ≤ uint32_max)
      × (s ≤ uint32_max)
      × (length payload ≤ max_media_payload_bytes)
      × (pack_header kind t s payload ≡ bytes)
unfolding pack_packet
pack_packet-eq-ok kind t s payload bytes h = ground arith

-- A packet that can be packed is what unpacking its bytes gives back.
pub unpack-pack :
    (p : MediaPacket) (bytes : List ℕ) → pack_packet p ≡ ok bytes → unpack_packet bytes ≡ ok p
unfolding pack_packet
unpack-pack p bytes h = packed p.kind p.turn_id p.pts_ms p.payload h
  where
    packed :
        (kind : PacketKind) (turn_id pts_ms : ℤ) (payload : List ℕ)
        → pack_packet
            (record { kind = kind; turn_id = turn_id; pts_ms = pts_ms; payload = payload })
          ≡ ok bytes
        → unpack_packet bytes
          ≡ ok (record { kind = kind; turn_id = turn_id; pts_ms = pts_ms; payload = payload })
    packed kind (negsuc t) pts_ms payload e = cc
    packed kind (pos t) (negsuc s) payload e = elim (Bool-cases (leb t uint32_max)) [
      | inl l ↦ (let w = rw l at e in cc)
      | inr l ↦ (let w = rw l at e in cc)
    ]
    packed kind (pos t) (pos s) payload e =
        let (ht, hs, hl, layout) = pack_packet-eq-ok kind t s payload bytes e in
        subst
          (λ x.
            unpack_packet x
            ≡ ok (record { kind = kind; turn_id = pos t; pts_ms = pos s; payload = payload }))
          layout (unpack-header kind t s payload ht hs hl)

kind_code-packet_kind :
    (raw : ℕ) (kind : PacketKind) → packet_kind raw ≡ some kind → kind_code kind ≡ raw
unfolding packet_kind
kind_code-packet_kind raw kind h = ground arith

packet_of-eq-ok :
    (h : Header) (p : MediaPacket)
    → packet_of h ≡ ok p
    → (kind : PacketKind) × (is_magic h.magic ≡ true)
      × (h.version ≡ 1)
      × (packet_kind h.kind ≡ some kind)
      × (record { kind = kind; turn_id = pos h.turn_id; pts_ms = pos h.pts_ms; payload = h.payload }
          ≡ p)
unfolding packet_of
packet_of-eq-ok h p e = elim (Option-cases (packet_kind h.kind)) [
  | inl n ↦ (let w = rw n at e in ground arith)
  | inr (kind, n) ↦ (let w = rw n at e in ground arith)
]

pack-header :
    (h : Header) (kind : PacketKind) (bytes : List ℕ)
    → h.turn_id ≤ uint32_max
    → h.pts_ms ≤ uint32_max
    → length h.payload ≤ max_media_payload_bytes
    → pack_header kind h.turn_id h.pts_ms h.payload ≡ bytes
    → pack_packet (record {
      kind = kind;
      turn_id = pos h.turn_id;
      pts_ms = pos h.pts_ms;
      payload = h.payload;
    })
      ≡ ok bytes
unfolding pack_packet
pack-header h kind bytes ht hp hl e = ground arith

all_bytes :
    (b : ℕ) (bs : List ℕ) → all is_byte (b ∷ bs) ≡ true → (b < 256) × (all is_byte bs ≡ true)
all_bytes b bs h = ground arith

unpack_packet-eq-ok :
    (bytes : List ℕ) (p : MediaPacket)
    → unpack_packet bytes ≡ ok p
    → (h : Header) × (length bytes ≤ header_size + max_media_payload_bytes)
      × (unpack_from bytes ≡ some h)
      × (packet_of h ≡ ok p)
unfolding unpack_packet
unpack_packet-eq-ok bytes p u = elim (Option-cases (unpack_from bytes)) [
  | inl n ↦ (let w = rw n at u in ground arith)
  | inr (h, n) ↦ (let w = rw n at u in ground arith)
]

uint32_range :
    (a b c d : ℕ) → a < 256 → b < 256 → c < 256 → d < 256 → read_uint32 a b c d ≤ uint32_max
uint32_range a b c d ha hb hc hd = omega arith

abbrev header : ℕ → ℕ → ℕ → ℕ → ℕ → ℕ → List ℕ → Header
header m₀ m₁ v k t p payload = record {
  magic = m₀ ∷ m₁ ∷ [];
  version = v;
  kind = k;
  turn_id = t;
  pts_ms = p;
  payload = payload;
}

bytes_of :
    (m₀ m₁ v k a b c d e f g i : ℕ) (payload : List ℕ)
    → all is_byte (m₀ ∷ m₁ ∷ v ∷ k ∷ a ∷ b ∷ c ∷ d ∷ e ∷ f ∷ g ∷ i ∷ payload) ≡ true
    → (m₀ < 256)
      × (m₁ < 256)
      × (v < 256)
      × (k < 256)
      × (a < 256)
      × (b < 256)
      × (c < 256)
      × (d < 256)
      × (e < 256)
      × (f < 256)
      × (g < 256)
      × (i < 256)
bytes_of m₀ m₁ v k a b c d e f g i payload bs = ground arith

-- The bytes under a header that was read.
record Layout (bytes : List ℕ) (h : Header) : Type 0 where
  turn_id : h.turn_id ≤ uint32_max
  pts_ms : h.pts_ms ≤ uint32_max
  size : length bytes ≡ header_size + length h.payload
  bytes_are :
      (kind : PacketKind)
      → is_magic h.magic ≡ true
      → h.version ≡ 1
      → kind_code kind ≡ h.kind
      → pack_header kind h.turn_id h.pts_ms h.payload ≡ bytes

unpack_from-Layout :
    (bytes : List ℕ) (h : Header)
    → all is_byte bytes ≡ true
    → unpack_from bytes ≡ some h
    → Layout bytes h
unfolding unpack_from
unpack_from-Layout (m₀ ∷ m₁ ∷ v ∷ k ∷ a ∷ b ∷ c ∷ d ∷ e ∷ f ∷ g ∷ i ∷ payload) h bs u =
    let same : header m₀ m₁ v k (read_uint32 a b c d) (read_uint32 e f g i) payload ≡ h = cc in
    let (h₁, h₂, h₃, h₄, ha, hb, hc, hd, he, hf, hg, hi) =
      bytes_of m₀ m₁ v k a b c d e f g i payload bs in
    subst (Layout (m₀ ∷ m₁ ∷ v ∷ k ∷ a ∷ b ∷ c ∷ d ∷ e ∷ f ∷ g ∷ i ∷ payload)) same (record {
      turn_id = uint32_range a b c d ha hb hc hd;
      pts_ms = uint32_range e f g i he hf hg hi;
      size = omega arith;
      bytes_are = λ kind magic version known.
          let (first, second) = and_true (nat_eq m₀ 69) (nat_eq m₁ 87) magic in
          let e₀ : 69 ≡ m₀ = ground arith in
          let e₁ : 87 ≡ m₁ = ground arith in
          rw
            (
              uint32-read e f g i payload he hf hg hi,
              uint32-read a b c d (e ∷ f ∷ g ∷ i ∷ payload) ha hb hc hd,
              e₀,
              e₁,
              version,
              known,
            )
            refl;
    })
unpack_from-Layout _ h bs u = cc

-- Bytes that unpack to a packet are what packing it gives back.
pub pack-unpack :
    (bytes : List ℕ) (p : MediaPacket)
    → all is_byte bytes ≡ true
    → unpack_packet bytes ≡ ok p
    → pack_packet p ≡ ok bytes
pack-unpack bytes p bs u =
    let (h, fits, read, judged) = unpack_packet-eq-ok bytes p u in
    let (kind, magic, version, known, same) = packet_of-eq-ok h p judged in
    let l = unpack_from-Layout bytes h bs read in
    subst (λ x. pack_packet x ≡ ok bytes) same
      (pack-header h kind bytes l.turn_id l.pts_ms (omega (arith, l.size))
        (l.bytes_are kind magic version (kind_code-packet_kind h.kind kind known)))
