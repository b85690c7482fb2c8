-- ===== src/MiniRpc/Tests.antt =====
-- The codec at concrete messages: a request with an extension, a response with a negative code, and
-- a buffer that has something behind the frame.
use unix_notes.Prelude.{
  ℕ, ◌+◌, ◌≤◌, ◌<◌, ◌≡◌, refl, List, [], ◌∷◌, ◌++◌, ◌⊎◌, length, replicate, arith, ok, throws,
  length_error, Returns, negsuc,
}
use unix_notes.MiniReactor.Buffer.{Buffer}
use unix_notes.MiniReactor.Buffer.Refine.{Holds}
use unix_notes.MiniRpc.Protocol.{RpcRequest, RpcResponse, raw, request, response, max_message_size}
use unix_notes.MiniRpc.Frame.{complete, check_string_length, encode_frame, parse_frame}
use unix_notes.MiniRpc.Frame.Stream.{frame_bytes, Within, parse_frame_safe}
use unix_notes.MiniRpc.Codec.{
  append_metadata_string, has_request_extension, append_request_extension, encode_request,
  try_decode_request, has_response_extension, append_response_extension, encode_response,
  try_decode_response,
}
use unix_notes.MiniRpc.Codec.Encode.{request_metadata, encode_request_lem}
use unix_notes.MiniRpc.Codec.Request.{FitsRequest, request_round_trip}
use unix_notes.MiniRpc.Codec.Response.{response_metadata, FitsResponse, response_round_trip}
use unix_notes.MiniRpc.Codec.Safety.{Consumes, try_decode_request_safe}

abbrev pub add_request : RpcRequest
add_request = record {
  request_id = 7;
  service_name = b'C' ∷ b'a' ∷ b'l' ∷ b'c' ∷ [];
  method_name = b'A' ∷ b'd' ∷ b'd' ∷ [];
  payload = 1 ∷ 2 ∷ [];
  timeout_ms = 500;
  trace_id = b't' ∷ [];
  serializer = [];
  attempt = 1;
}

abbrev pub add_frame : List ℕ
add_frame = frame_bytes request 7 (request_metadata add_request) (1 ∷ 2 ∷ [])

abbrev pub failed : RpcResponse
failed = record {
  request_id = 7;
  error_code = negsuc 4;
  error_message = b'n' ∷ b'o' ∷ [];
  payload = [];
  trace_id = [];
  server_cost_us = 0;
  serializer = raw;
}

abbrev pub failed_frame : List ℕ
failed_frame = frame_bytes response 7 (response_metadata failed) []

-- The bytes behind eight that are free.
abbrev pub filled : List ℕ → Buffer
filled bytes = record {
  data_ = replicate 8 0 ++ (bytes ++ []);
  reader_index = 8;
  writer_index = 8 + length bytes;
}

pub filled-Holds : (bytes : List ℕ) → 8 + length (bytes ++ []) ≤ 1000 → Holds (filled bytes) bytes
filled-Holds bytes h = record {
  front = replicate 8 0;
  back = [];
  parts = refl;
  reader_at = refl;
  writer_at = refl;
  room = omega arith;
  small = omega arith;
}

pub add_request-Fits : FitsRequest add_request
unfolding has_request_extension
add_request-Fits = record {
  id_fits = omega arith;
  timeout_fits = omega arith;
  attempt_fits = omega arith;
  strings = record {
    service_short = omega arith;
    method_short = omega arith;
    trace_short = omega arith;
    serializer_short = omega arith;
  };
  size_fits = omega arith;
}

encode_request_lem_example :
    ((length (request_metadata add_request) + 2 ≤ max_message_size)
      × (encode_request add_request ≡ ok add_frame))
    ⊎ ((max_message_size < length (request_metadata add_request) + 2)
        × (encode_request add_request ≡ throws length_error))
encode_request_lem_example = encode_request_lem add_request add_request-Fits.strings

pub add_request-encoded : encode_request add_request ≡ ok add_frame
unfolding encode_request append_request_extension append_metadata_string check_string_length
    encode_frame has_request_extension
add_request-encoded = refl

request_round_trip_example :
    Returns
      (try_decode_request (filled (add_frame ++ (9 ∷ []))))
      (λ d. (d.0 ≡ complete (record add_request { serializer = raw })) × Holds d.1 (9 ∷ []))
unfolding has_request_extension
request_round_trip_example =
    request_round_trip add_request add_frame (9 ∷ []) (filled (add_frame ++ (9 ∷ [])))
      add_request-Fits add_request-encoded (filled-Holds (add_frame ++ (9 ∷ [])) small)
  where
    small : 8 + length ((add_frame ++ (9 ∷ [])) ++ []) ≤ 1000
    small = omega arith

pub failed-Fits : FitsResponse failed
unfolding has_response_extension
failed-Fits = record {
  id_fits = omega arith;
  code_fits = omega arith;
  cost_fits = omega arith;
  message_short = omega arith;
  trace_short = omega arith;
  serializer_short = omega arith;
  size_fits = omega arith;
}

pub failed-encoded : encode_response failed ≡ ok failed_frame
unfolding encode_response append_response_extension append_metadata_string check_string_length
    encode_frame has_response_extension
failed-encoded = refl

response_round_trip_example :
    Returns
      (try_decode_response (filled (failed_frame ++ (9 ∷ []))))
      (λ d. (d.0 ≡ complete failed) × Holds d.1 (9 ∷ []))
unfolding has_response_extension
response_round_trip_example =
    response_round_trip failed failed_frame (9 ∷ []) (filled (failed_frame ++ (9 ∷ []))) failed-Fits
      failed-encoded (filled-Holds (failed_frame ++ (9 ∷ [])) small)
  where
    small : 8 + length ((failed_frame ++ (9 ∷ [])) ++ []) ≤ 1000
    small = omega arith

-- Bytes that are no frame.
abbrev junk : List ℕ
junk = replicate 40 77

parse_frame_safe_example : Returns (parse_frame (filled junk) request) (Within 40)
parse_frame_safe_example =
    parse_frame_safe request junk {buffer = filled junk} (filled-Holds junk (omega arith))

try_decode_request_safe_example :
    Returns (try_decode_request (filled junk)) (Consumes junk (filled junk))
try_decode_request_safe_example =
    try_decode_request_safe junk (filled junk) (filled-Holds junk (omega arith))
