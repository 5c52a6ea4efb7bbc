-- ===== src/Invoke/Rpc.antt =====
-- mtproto/invoke.go, `parseRPCResultObject`. Decompression and the trimming of white space are
-- parameters.
use mt_pro_go.Prelude.{
  ℕ, Bool, true, false, List, [], ◌∷◌, ltb, ◌==◌, if◌then◌else◌, length, take, Result, ok, err, msg,
  rpc_error, and_then,
}
use mt_pro_go.Prelude.Int.{ℤ, pos}
use mt_pro_go.Prelude.Word.{to_int32, le_value}
use mt_pro_go.Tl.Constructors.{constructor_rpc_error, constructor_gzip_packed}
use mt_pro_go.Tl.Reader.{Parse, ◌>>=◌, pure, fail, value, new_reader, int, bytes, string}

-- The fields that `parseRPCResultObject` sets, and the request id that `invoke` adds.
pub record InvokeResult : Type 0 where
  pub request_message_id : ℤ
  pub response_message_id : ℤ
  pub constructor_id : ℕ
  pub body : List ℕ
  pub gzip_packed : Bool

-- `strings.ReplaceAll(s, "\x00", "")`.
unfoldable pub remove_zeros : List ℕ → List ℕ
remove_zeros [] = []
remove_zeros (c ∷ s) = let rest = remove_zeros s in if c == 0 then rest else c ∷ rest

unfoldable pub clean_rpc_error_message : (List ℕ → List ℕ) → List ℕ → List ℕ
clean_rpc_error_message trim_space s = trim_space (remove_zeros s)

module _ (trim_space : List ℕ → List ℕ) (gunzip : List ℕ → Result (List ℕ)) where
  abbrev pub result_of : ℤ → ℕ → List ℕ → Bool → InvokeResult
  result_of response_msg_id constructor body gzip_packed = record {
    request_message_id = pos 0;
    response_message_id = response_msg_id;
    constructor_id = constructor;
    body = body;
    gzip_packed = gzip_packed;
  }

  unfoldable pub unpacked_result : ℤ → List ℕ → Result InvokeResult
  unpacked_result response_msg_id unpacked =
      if ltb (length unpacked) 4
      then err (msg "mtproto: empty gzip unpacked rpc result")
      else ok (result_of response_msg_id (le_value (take 4 unpacked)) unpacked true)

  unfoldable pub parse_rpc_error : Parse InvokeResult
  parse_rpc_error = int >>= λ code. string >>= λ message.
      fail (rpc_error (to_int32 code) (clean_rpc_error_message trim_space message))

  unfoldable pub parse_gzip_packed : ℤ → Parse InvokeResult
  parse_gzip_packed response_msg_id = bytes >>= λ packed r.
      and_then (gunzip packed)
        (λ unpacked. and_then (unpacked_result response_msg_id unpacked) (λ res. ok (res, r)))

  unfoldable pub rpc_by_constructor : ℤ → List ℕ → ℕ → Parse InvokeResult
  rpc_by_constructor response_msg_id body constructor =
      if constructor == constructor_rpc_error
      then parse_rpc_error
      else if constructor == constructor_gzip_packed
      then parse_gzip_packed response_msg_id
      else pure (result_of response_msg_id constructor body false)

  -- The source returns `done == true` with every result, and `false` with every error.
  unfoldable pub parse_rpc_result_object : ℤ → List ℕ → Result InvokeResult
  parse_rpc_result_object response_msg_id body =
      if ltb (length body) 4
      then err (msg "mtproto: empty rpc result")
      else value ((int >>= rpc_by_constructor response_msg_id body) (new_reader body))
