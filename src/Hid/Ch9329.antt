-- ===== src/Hid/Ch9329.antt =====
-- src/hid/ch9329.rs: the packets of the CH9329 serial HID chip. A packet is 0x57 0xAB, an address, a
-- command, a length, the data and a checksum, the sum of all bytes before it modulo 256.
pub mod Packets
pub mod Extraction
pub mod Backend
pub mod Runtime
mod Examples
use one_kvm_stream_box.Base.{
  ℕ, ◌+◌, ◌-◌, ◌/◌, Bool, true, false, ◌&&◌, ◌||◌, not, Option, none, some, List, [], ◌∷◌, ◌++◌,
  bit_and, bit_or, ltb, leb, ◌==◌, ◌!=◌, if◌then◌else◌, length, get_or, take, drop, replicate, u8,
}

abbrev pub max_data_len : ℕ
max_data_len = 64

abbrev pub max_packet_size : ℕ
max_packet_size = 70

-- RESPONSE_SUCCESS_MASK and RESPONSE_ERROR_MASK.
abbrev pub response_success_mask : ℕ
response_success_mask = 0x80

abbrev pub response_error_mask : ℕ
response_error_mask = 0xC0

pub data Ch9329Error : Type 0 where
  success timeout invalid_header invalid_command : Ch9329Error
  checksum_error parameter_error operation_failed : Ch9329Error

-- `#[repr(u8)]`
unfoldable pub error_byte : Ch9329Error → ℕ
error_byte success = 0x00
error_byte timeout = 0xE1
error_byte invalid_header = 0xE2
error_byte invalid_command = 0xE3
error_byte checksum_error = 0xE4
error_byte parameter_error = 0xE5
error_byte operation_failed = 0xE6

unfoldable pub error_from : ℕ → Ch9329Error
error_from code =
    if code == 0x00
    then success
    else if code == 0xE1
    then timeout
    else if code == 0xE2
    then invalid_header
    else if code == 0xE3
    then invalid_command
    else if code == 0xE4
    then checksum_error
    else if code == 0xE5
    then parameter_error
    else if code == 0xE6
    then operation_failed
    else operation_failed

pub record LedStatus : Type 0 where
  pub num_lock : Bool
  pub caps_lock : Bool
  pub scroll_lock : Bool

unfoldable pub led_status_from : ℕ → LedStatus
led_status_from byte = record {
  num_lock = bit_and byte 0x01 != 0;
  caps_lock = bit_and byte 0x02 != 0;
  scroll_lock = bit_and byte 0x04 != 0;
}

-- `version`, the text made of the two halves of `version_raw`, is those halves.
pub record ChipInfo : Type 0 where
  pub version_major : ℕ
  pub version_minor : ℕ
  pub version_raw : ℕ
  pub usb_connected : Bool
  pub num_lock : Bool
  pub caps_lock : Bool
  pub scroll_lock : Bool

unfoldable pub chip_info_from_response : List ℕ → Option ChipInfo
chip_info_from_response payload =
    let version_raw = get_or payload 0 0 in
    let led_status = get_or payload 2 0 in
    if ltb (length payload) 8
    then none
    else some (record {
      version_major = version_raw / 16;
      version_minor = bit_and version_raw 0x0F;
      version_raw = version_raw;
      usb_connected = get_or payload 1 0 == 0x01;
      num_lock = bit_and led_status 0x01 != 0;
      caps_lock = bit_and led_status 0x02 != 0;
      scroll_lock = bit_and led_status 0x04 != 0;
    })

-- `fold(0u8, |acc, &x| acc.wrapping_add(x))`
sum_bytes : ℕ → List ℕ → ℕ
sum_bytes acc [] = acc
sum_bytes acc (x ∷ xs) = sum_bytes (u8 (acc + x)) xs

unfoldable pub calculate_checksum : List ℕ → ℕ
unfolding sum_bytes
calculate_checksum bytes = sum_bytes 0 bytes

-- The five bytes before the data.
abbrev pub packet_head : ℕ → ℕ → ℕ → List ℕ
packet_head address cmd len = 0x57 ∷ 0xAB ∷ address ∷ cmd ∷ len ∷ []

-- `build_packet_buf`: the buffer of 70 bytes and the packet's length. `none` is the panic of an index
-- out of range, for more than 64 bytes of data.
unfoldable pub build_packet_buf : ℕ → ℕ → List ℕ → Option (List ℕ × ℕ)
build_packet_buf address cmd payload =
    let front = packet_head address cmd (u8 (length payload)) ++ payload in
    let packet_len = 6 + length payload in
    if ltb max_data_len (length payload)
    then none
    else some (
      (front ++ (calculate_checksum front ∷ [])) ++ replicate (max_packet_size - packet_len) 0,
      packet_len,
    )

unfoldable pub build_packet : ℕ → ℕ → List ℕ → Option (List ℕ)
unfolding build_packet_buf
build_packet address cmd payload = elim (build_packet_buf address cmd payload) [
  | none ↦ none
  | some (buf, len) ↦ some (take len buf)
]

pub record Response : Type 0 where
  pub address : ℕ
  pub cmd : ℕ
  pub payload : List ℕ
  pub is_error : Bool
  pub error_code : Option Ch9329Error

-- The response of a frame that has passed the checks.
abbrev pub response_of : ℕ → ℕ → List ℕ → Response
response_of address cmd payload =
    let is_error = bit_and cmd response_error_mask == response_error_mask in
    record {
      address = address;
      cmd = cmd;
      payload = payload;
      is_error = is_error;
      error_code =
          if is_error && ltb 0 (length payload)
          then some (error_from (get_or payload 0 0))
          else none;
    }

unfoldable pub parse : List ℕ → Option Response
parse bytes =
    let len = get_or bytes 4 0 in
    if ltb (length bytes) 6
    then none
    else if get_or bytes 0 0 != 0x57 || get_or bytes 1 0 != 0xAB
    then none
    else if ltb (length bytes) (5 + len + 1)
    then none
    else if get_or bytes (5 + len) 0 != calculate_checksum (take (5 + len) bytes)
    then none
    else some (response_of (get_or bytes 2 0) (get_or bytes 3 0) (take len (drop 5 bytes)))

unfoldable pub is_success : Response → Bool
is_success r = not r.is_error && (length r.payload == 0 || get_or r.payload 0 0 == 0x00)

unfoldable pub expected_response_cmd : ℕ → Bool → ℕ
expected_response_cmd cmd is_error =
    bit_or cmd (if is_error then response_error_mask else response_success_mask)

-- The loop of `try_extract_response`. `rest` is the buffer from `offset` on; the result counts the
-- bytes up to the end of the frame.
unfoldable pub extract_from : ℕ → List ℕ → Option (Response × ℕ)
extract_from offset [] = none
extract_from offset (b ∷ rest) =
    let buffer : List ℕ = b ∷ rest in
    let frame_len = 6 + get_or buffer 4 0 in
    let later = extract_from (offset + 1) rest in
    if ltb (length buffer) 6
    then none
    else if b != 0x57 || get_or buffer 1 0 != 0xAB
    then later
    else if ltb (length buffer) frame_len
    then none
    else elim (parse (take frame_len buffer)) [
      | some response ↦ some (response, offset + frame_len)
      | none ↦ later
    ]

unfoldable pub try_extract_response : List ℕ → Option (Response × ℕ)
unfolding extract_from
try_extract_response buffer = extract_from 0 buffer
