-- ===== src/Hid/Ch9329/Examples.antt =====
-- The packets of the tests in src/hid/ch9329.rs, and the theorems at these.
use one_kvm_stream_box.Base.{ℕ, ◌+◌, ◌≡◌, refl, true, false, none, some, List, [], ◌∷◌, ◌++◌, arith}
use one_kvm_stream_box.Hid.Ch9329.{
  build_packet, calculate_checksum, parse, response_of, try_extract_response,
}
use one_kvm_stream_box.Hid.Ch9329.Packets.{frame, parse-build_packet}
use one_kvm_stream_box.Hid.Ch9329.Extraction.{Found, try_extract_sound, try_extract_frame}
use one_kvm_stream_box.Hid.Ch9329.Runtime.{RuntimeState}

get_info_packet : build_packet 0 1 [] ≡ some (0x57 ∷ 0xAB ∷ 0x00 ∷ 0x01 ∷ 0x00 ∷ 0x03 ∷ [])
unfolding build_packet calculate_checksum
get_info_packet = refl

parse-build_packet_example :
    parse (0x57 ∷ 0xAB ∷ 0x00 ∷ 0x01 ∷ 0x00 ∷ 0x03 ∷ 7 ∷ [])
    ≡ some (record { address = 0; cmd = 1; payload = []; is_error = false; error_code = none })
parse-build_packet_example =
    parse-build_packet 0 1 [] (0x57 ∷ 0xAB ∷ 0x00 ∷ 0x01 ∷ 0x00 ∷ 0x03 ∷ []) (7 ∷ [])
      get_info_packet

abbrev noisy : List ℕ
noisy = 1 ∷ 2 ∷ 0x57 ∷ 0xAB ∷ 0x00 ∷ 0x82 ∷ 0x01 ∷ 0x00 ∷ 0x85 ∷ 9 ∷ []

found_in_noise : try_extract_response noisy ≡ some (response_of 0 0x82 (0 ∷ []), 9)
unfolding try_extract_response parse calculate_checksum
found_in_noise = refl

try_extract_sound_example : Found 0 9 (response_of 0 0x82 (0 ∷ [])) noisy
try_extract_sound_example = try_extract_sound noisy 9 (response_of 0 0x82 (0 ∷ [])) found_in_noise

try_extract_frame_example :
    try_extract_response ((1 ∷ 2 ∷ []) ++ (frame 0 0x82 (0 ∷ []) ++ (9 ∷ [])))
    ≡ some (response_of 0 0x82 (0 ∷ []), 2 + 7)
try_extract_frame_example =
    try_extract_frame (1 ∷ 2 ∷ []) (9 ∷ []) (0 ∷ []) 0 0x82
      ((λ e. omega arith), ((λ e. omega arith), tt))

abbrev first_contact : RuntimeState
first_contact = record {
  initialized = true;
  online = false;
  last_error = some ("gone", "port_not_found");
  notified = 4;
}
