-- ===== src/Wire/Read.antt =====
-- Reading at the index pointer.
use smudge.Prelude.{
  ℕ, ◌+◌, ◌-◌, ◌≡◌, ◌⊎◌, inl, inr, refl, ◌∙◌, List, [], ◌∷◌, ◌++◌, length, take, drop,
  length-append, append_assoc, take_append, drop_append, arith, ◌==◌, leb, if◌then◌else◌, ◌&&◌,
  true,
}
use native.Mathlib.Nat.{zero-add, suc-add}
use smudge.Prelude.Outcome.{ok}
use smudge.Bytes.{index}
use smudge.Bytes.Little.{index-append}
use smudge.Net.{Ip, v4_in_v6_prefix, ipv6_len}
use smudge.Wire.{slice, decode_ip}

-- The only values of `ipLen`.
abbrev pub IsIpLen : ℕ → Type 0
IsIpLen n = (n ≡ 4) ⊎ (n ≡ 16)

-- The IP that is read from bytes that were sent.
unfoldable pub expand : ℕ → Ip → Ip
expand ip_len raw = if ip_len == ipv6_len then raw else v4_in_v6_prefix ++ raw

drop_both : (pre mid rest : List ℕ) → drop (length pre + length mid) (pre ++ (mid ++ rest)) ≡ rest
drop_both [] mid rest = rw zero-add (drop_append mid rest)
drop_both (x ∷ pre) mid rest = rw suc-add (drop_both pre mid rest)

within :
    (pre mid rest : List ℕ)
    → (leb (length pre) (length pre + length mid)
        && leb (length pre + length mid) (length (pre ++ (mid ++ rest))))
      ≡ true
within pre mid rest = ground (arith, length-append pre (mid ++ rest), length-append mid rest)

take_mid :
    (pre mid rest : List ℕ)
    → take (length pre + length mid - length pre) (drop (length pre) (pre ++ (mid ++ rest))) ≡ mid
take_mid pre mid rest =
    let e : length pre + length mid - length pre ≡ length mid = omega arith in
    rw (e, drop_append pre) (take_append mid rest)

-- A slice that ends within the elements is what stands there.
pub slice-append :
    (pre mid suf spare : List ℕ)
    → slice
        (record { elems = pre ++ (mid ++ suf); spare = spare })
        (length pre)
        (length pre + length mid)
      ≡ ok (record { elems = mid; spare = suf ++ spare })
unfolding slice
slice-append pre mid suf spare = rw (
  append_assoc pre,
  append_assoc mid,
  within pre mid (suf ++ spare),
  take_mid pre mid (suf ++ spare),
  drop_both pre mid (suf ++ spare),
)

decode_ip-append4 :
    (a b c d : ℕ) (pre suf spare : List ℕ)
    → decode_ip 4 (record { elems = pre ++ (a ∷ b ∷ c ∷ d ∷ suf); spare = spare }) (length pre)
      ≡ ok (v4_in_v6_prefix ++ (a ∷ b ∷ c ∷ d ∷ []), length pre + 4)
unfolding decode_ip index
decode_ip-append4 a b c d pre suf spare = simp index-append

decode_ip-append16 :
    (raw pre suf spare : List ℕ)
    → length raw ≡ 16
    → decode_ip 16 (record { elems = pre ++ (raw ++ suf); spare = spare }) (length pre)
      ≡ ok (raw, length pre + 16)
unfolding decode_ip
decode_ip-append16 raw pre suf spare e =
    let part = rw e at (slice-append pre raw suf spare) in rw part

four_elems :
    (xs : List ℕ)
    → length xs ≡ 4
    → (a : ℕ) × (b : ℕ) × (c : ℕ) × (d : ℕ) × (xs ≡ a ∷ b ∷ c ∷ d ∷ [])
four_elems [] e = absurd (omega arith)
four_elems (a ∷ []) e = absurd (omega arith)
four_elems (a ∷ b ∷ []) e = absurd (omega arith)
four_elems (a ∷ b ∷ c ∷ []) e = absurd (omega arith)
four_elems (a ∷ b ∷ c ∷ d ∷ []) e = (a, b, c, d, refl)
four_elems (a ∷ b ∷ c ∷ d ∷ x ∷ xs) e = absurd (omega arith)

-- The IP that is read is the one that was sent, in the form of 16 bytes.
pub decode_ip-append :
    (ip_len : ℕ) (raw pre suf spare : List ℕ)
    → IsIpLen ip_len
    → length raw ≡ ip_len
    → decode_ip ip_len (record { elems = pre ++ (raw ++ suf); spare = spare }) (length pre)
      ≡ ok (expand ip_len raw, length pre + ip_len)
unfolding expand
decode_ip-append ip_len raw pre suf spare (inr h) e =
    rw h (decode_ip-append16 raw pre suf spare (e ∙ h))
decode_ip-append ip_len raw pre suf spare (inl h) e =
    let (a, b, c, d, split) = four_elems raw (e ∙ h) in
    rw (h, split) (decode_ip-append4 a b c d pre suf spare)
