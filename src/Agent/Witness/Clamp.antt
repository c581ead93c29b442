-- ===== src/Agent/Witness/Clamp.antt =====
-- The length of what is kept of a reply.
use sns_kongswap_adaptor.Base.{
  ℕ, ◌≡◌, ◌∙◌, ◌≤◌, ◌<◌, ◌+◌, ◌-◌, ◌/◌, Option, none, some, List, ◌++◌, arith, length, length-take,
  length-drop, length-append, take, drop,
}
use sns_kongswap_adaptor.Base.Text.{str}
use sns_kongswap_adaptor.Agent.Witness.{
  clamp_string_len, utf8_to_ascii_lossy, serialize_reply, max_reply_size_bytes,
}

-- The head, the ellipsis and the tail.
length-ellipsis :
    (s : List ℕ) (h t : ℕ)
    → h + t ≤ length s
    → length (take h s ++ (str "..." ++ drop (length s - t) s)) ≡ h + 3 + t
unfolding str
length-ellipsis s h t fits = omega (
  arith,
  length-append (take h s) (str "..." ++ drop (length s - t) s),
  length-append (str "...") (drop (length s - t) s),
  length-take h s,
  length-drop (length s - t) s,
)

clamped :
    (s : List ℕ) (n : ℕ)
    → 3 < n
    → n < length s
    → length (take (n - 3 - (n - 3) / 2) s ++ (str "..." ++ drop (length s - (n - 3) / 2) s)) ≡ n
clamped s n h k =
    let half : (n - 3) / 2 ≤ n - 3 = omega arith in
    length-ellipsis s (n - 3 - (n - 3) / 2) ((n - 3) / 2) (omega arith) ∙ omega arith

-- No text is longer than the limit after it has been clamped. Where the limit is more than the three
-- characters of an ellipsis, a text that fits is kept, and a longer one fills the limit.
pub clamp_string_len_lem :
    (s : List ℕ) (max_len : ℕ)
    → (length (clamp_string_len s max_len) ≤ max_len)
      × (3 < max_len → length s ≤ max_len → clamp_string_len s max_len ≡ s)
      × (3 < max_len → max_len < length s → length (clamp_string_len s max_len) ≡ max_len)
unfolding clamp_string_len
clamp_string_len_lem s n = ground (arith, clamped s n, length-take n s)

-- What is kept of a reply, or of the failure to print it, has at most 1,024 bytes.
pub length-serialize_reply :
    (json : Option (List ℕ)) → length (serialize_reply json) ≤ max_reply_size_bytes
unfolding serialize_reply str
length-serialize_reply none = omega arith
length-serialize_reply (some json) =
    (clamp_string_len_lem (utf8_to_ascii_lossy json) max_reply_size_bytes).0
