-- ===== src/Webrtc/H265Payloader/Examples.antt =====
-- Small units of src/webrtc/h265_payloader.rs, cut and put together again.
use one_kvm_stream_box.Base.{
  ℕ, ◌≤◌, ◌≡◌, refl, true, false, some, List, [], ◌∷◌, arith, length, All,
}
use one_kvm_stream_box.Webrtc.H265Payloader.{
  emit_fragmented, fragment_loop, fu_header, fu_packet, get_nal_type, new, payload,
}
use one_kvm_stream_box.Webrtc.H265Payloader.Reassembly.{reassemble, reassemble-emit_fragmented}
use one_kvm_stream_box.Webrtc.H265Payloader.Units.{
  Coded, IsClean, is_clean, stream, emit_all, payload_units,
}
use one_kvm_stream_box.Webrtc.H265Payloader.Aggregation.{
  packet_of, payloads_of, read_aggregation, payload-parameter_sets,
}

-- An IDR unit with five bytes of data.
abbrev idr : List ℕ
idr = 0x26 ∷ 0x01 ∷ 10 ∷ 11 ∷ 12 ∷ 13 ∷ 14 ∷ []

idr_packets :
    emit_fragmented idr 5 []
    ≡ (0x62 ∷ 0x01 ∷ 0x93 ∷ 10 ∷ 11 ∷ [])
      ∷ (0x62 ∷ 0x01 ∷ 0x13 ∷ 12 ∷ 13 ∷ [])
      ∷ (0x62 ∷ 0x01 ∷ 0x53 ∷ 14 ∷ [])
      ∷ []
unfolding emit_fragmented fragment_loop fu_packet fu_header get_nal_type
idr_packets = refl

reassemble-emit_fragmented_example : reassemble (emit_fragmented idr 5 []) ≡ some idr
reassemble-emit_fragmented_example =
    reassemble-emit_fragmented 0x26 0x01 10 (11 ∷ 12 ∷ 13 ∷ 14 ∷ []) 5 (omega arith) (omega arith)
      (omega arith)

-- A picture: three parameter sets and the unit, behind start codes of four and of three bytes.
abbrev vps : Coded
vps = record { long = true; nalu = 0x40 ∷ 0x01 ∷ 1 ∷ [] }

abbrev sps : Coded
sps = record { long = true; nalu = 0x42 ∷ 0x01 ∷ 2 ∷ 3 ∷ [] }

abbrev pps : Coded
pps = record { long = true; nalu = 0x44 ∷ 0x01 ∷ 4 ∷ [] }

abbrev slice : Coded
slice = record { long = false; nalu = idr }

abbrev picture : List Coded
picture = vps ∷ sps ∷ pps ∷ slice ∷ []

picture-IsClean : All IsClean picture
unfolding is_clean
picture-IsClean = (refl, (refl, (refl, (refl, tt))))

picture_types :
    (get_nal_type vps.nalu ≡ 32)
    × (get_nal_type sps.nalu ≡ 33)
    × (get_nal_type pps.nalu ≡ 34)
    × (get_nal_type idr ≡ 19)
unfolding get_nal_type
picture_types = (refl, refl, refl, refl)

slice_type : get_nal_type idr ≤ 31
slice_type = omega (arith, picture_types.3)

payload_units_example : payload new 20 (stream picture) ≡ emit_all new picture 20 []
payload_units_example =
    payload_units new vps (sps ∷ pps ∷ slice ∷ []) 20 (omega arith) picture-IsClean

payload-parameter_sets_example :
    (payload new 20 (stream picture)
      ≡ (new, payloads_of idr 20 (packet_of vps.nalu sps.nalu pps.nalu ∷ [])))
    × (read_aggregation (packet_of vps.nalu sps.nalu pps.nalu)
        ≡ some (vps.nalu ∷ sps.nalu ∷ pps.nalu ∷ []))
    × (length (packet_of vps.nalu sps.nalu pps.nalu) ≤ 20)
payload-parameter_sets_example =
    payload-parameter_sets new vps sps pps slice 20 picture-IsClean picture_types.0 picture_types.1
      picture_types.2 (slice_type, omega arith) (omega arith) (omega arith)
