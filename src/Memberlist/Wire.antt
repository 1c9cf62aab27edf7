-- ===== src/Memberlist/Wire.antt =====
-- kv/memberlist/memberlist_client.go: the frames of a full state, 4 bytes of length and a pair each.
-- The codecs of values and the encoding of `KeyValuePair`, which is generated, are parameters.
use dskit.Base.{
  List, Option, String, [], drop, if◌then◌else◌, length, ltb, map, none, take, ℕ, ◌%◌, ◌*◌, ◌+◌,
  ◌/◌, ◌^◌, ◌∷◌,
}
pub mod Framing
use mathlib.Core.Option
use dskit.Memberlist.Messages.{KeyValuePair}

-- `codec.Codec`: `decode` gives an error, a value that is not Mergeable, or a value.
pub record Codec (V : Type 0) : Type 0 where
  pub codec_id : String
  pub encode : V → Option (List ℕ)
  pub decode : List ℕ → Option (Option V)

pub record Wire (V : Type 0) : Type 0 where
  pub codecs : String → Option (Codec V)
  pub marshal : KeyValuePair → Option (List ℕ)
  pub unmarshal : List ℕ → Option KeyValuePair

-- `binary.Write(&buf, binary.BigEndian, uint32(n))`
unfoldable pub put_uint32 : ℕ → List ℕ
put_uint32 n = (n / 2 ^ 24 % 256) ∷ (n / 2 ^ 16 % 256) ∷ (n / 2 ^ 8 % 256) ∷ (n % 256) ∷ []

-- `binary.BigEndian.Uint32`, of four bytes at least
unfoldable pub get_uint32 : List ℕ → ℕ
get_uint32 (a ∷ b ∷ c ∷ d ∷ rest) = a * 2 ^ 24 + b * 2 ^ 16 + c * 2 ^ 8 + d
get_uint32 short = 0

module _ {V : Type 0} (w : Wire V) where
  -- The body of the loop of `MergeRemoteState` up to the pair: the pair, the length of its encoding
  -- and the data left, or `none` for data that cannot be parsed.
  unfoldable pub next_pair : List ℕ → Option (KeyValuePair × ℕ × List ℕ)
  unfolding get_uint32
  next_pair input =
      if ltb (length input) 4
      then none
      else (let pair_length = get_uint32 input in
          let rest = drop 4 input in
          if ltb (length rest) pair_length
          then none
          else Option.map (λ pair. (pair, pair_length, drop pair_length rest))
              (w.unmarshal (take pair_length rest)))
