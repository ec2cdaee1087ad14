-- ===== src/Realtime/Tests.antt =====
-- Packets and phrases at concrete inputs, and the theorems there.
use evoagent_os.Base.{ℕ, ◌≡◌, refl, List, [], ◌∷◌}
use evoagent_os.Base.Action.{ok, err}
use evoagent_os.Realtime.Protocol.{
  pos, negsuc, mic_pcm16, MediaPacket, out_of_range, pack_packet, unpack_packet, unpack_from,
  packet_of, packet_kind,
}
use evoagent_os.Realtime.Protocol.RoundTrip.{unpack-pack, pack-unpack}
use evoagent_os.Base.Texts.{is_space}
use evoagent_os.Realtime.Chunking.{
  SemanticChunker, semantic_chunker, push, drain, find_split, strong_split, soft_split,
  first_strong, last_soft, take, drop, lstrip, rstrip, is_strong, is_soft,
}
use evoagent_os.Realtime.Chunking.Visible.{visible, join, phrases, visible-phrases}
use evoagent_os.Realtime.Chunking.Settled.{
  Speakable, IsReady, semantic_chunker-IsReady, push-IsReady,
}

abbrev microphone : MediaPacket
microphone = record { kind = mic_pcm16; turn_id = pos 258; pts_ms = pos 20; payload = 7 ∷ 8 ∷ [] }

abbrev microphone_bytes : List ℕ
microphone_bytes = 69 ∷ 87 ∷ 1 ∷ 1 ∷ 2 ∷ 1 ∷ 0 ∷ 0 ∷ 20 ∷ 0 ∷ 0 ∷ 0 ∷ 7 ∷ 8 ∷ []

microphone_packed : pack_packet microphone ≡ ok microphone_bytes
unfolding pack_packet
microphone_packed = refl

microphone_unpacked : unpack_packet microphone_bytes ≡ ok microphone
unfolding unpack_packet unpack_from packet_of packet_kind
microphone_unpacked = refl

negative_turn : pack_packet (record microphone { turn_id = negsuc 0 }) ≡ err out_of_range
unfolding pack_packet
negative_turn = refl

unpack-pack_example : unpack_packet microphone_bytes ≡ ok microphone
unpack-pack_example = unpack-pack microphone microphone_bytes microphone_packed

pack-unpack_example : pack_packet microphone ≡ ok microphone_bytes
pack-unpack_example = pack-unpack microphone_bytes microphone refl microphone_unpacked

abbrev chunker : SemanticChunker
chunker = record { min_chars = 2; max_chars = 4; buffer = [] }

chunker_made : semantic_chunker 2 4 ≡ ok chunker
unfolding semantic_chunker
chunker_made = refl

-- "a! bcdefg", of which "fg" waits for more.
abbrev delta : List ℕ
delta = 97 ∷ 33 ∷ 32 ∷ 98 ∷ 99 ∷ 100 ∷ 101 ∷ 102 ∷ 103 ∷ []

delta_pushed : (push delta chunker).0 ≡ (97 ∷ 33 ∷ []) ∷ (98 ∷ 99 ∷ 100 ∷ 101 ∷ []) ∷ []
unfolding push drain find_split strong_split soft_split first_strong last_soft take drop lstrip
    rstrip is_space is_strong is_soft
delta_pushed = refl

visible-phrases_example :
    visible (join (phrases (delta ∷ []) chunker)) ≡ visible (join (delta ∷ []))
visible-phrases_example = visible-phrases (delta ∷ []) chunker

push-IsReady_example : Speakable 4 (push delta chunker).0 × IsReady (push delta chunker).1
push-IsReady_example =
    push-IsReady delta chunker (semantic_chunker-IsReady 2 4 chunker chunker_made)
