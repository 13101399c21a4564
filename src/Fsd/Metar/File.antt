-- ===== src/Fsd/Metar/File.antt =====
-- fsd/metar.go: the METAR is the second line of the weather service's file.
use openfsd.Prelude.{
  ℕ, zero, suc, ◌≡◌, ◌≢◌, refl, sym, ap, ◌∙◌, [], ◌∷◌, ◌++◌, some, arith, All, All-append,
}
use mathlib.Core.List.{append_assoc}
use openfsd.Prelude.Bytes.{Bytes, codes, crlf}
use openfsd.Packet.Fields.{count_byte, cut_at}
use openfsd.Fsd.Env.{Env}
use openfsd.Fsd.Metar.{
  answered, zeros, after_line, first_line, metar_of, metar_reply, build_metar_response_packet,
}

-- A line has no line end in it.
abbrev pub IsLine : Bytes → Type 0
IsLine s = All (λ c. c ≢ 10) s

count_byte-line : (s t : Bytes) → IsLine s → count_byte 10 (s ++ t) ≡ count_byte 10 t
unfolding count_byte
count_byte-line [] t h = refl
count_byte-line (c ∷ s) t (n, h) = ground (arith, count_byte-line s t h)

after_line-line : (s t : Bytes) → IsLine s → after_line (s ++ (10 ∷ t)) ≡ t
unfolding after_line
after_line-line [] t h = refl
after_line-line (c ∷ s) t (n, h) = ground (arith, after_line-line s t h)

cut_at-line : (s t : Bytes) → IsLine s → cut_at 10 (s ++ (10 ∷ t)) ≡ s
unfolding cut_at
cut_at-line [] t h = refl
cut_at-line (c ∷ s) t (n, h) = ground (arith, cut_at-line s t h)

zeros-IsLine : (n : ℕ) → IsLine (zeros n)
unfolding zeros
zeros-IsLine zero = tt
zeros-IsLine (suc n) = (omega arith, zeros-IsLine n)

count_byte-none : (s : Bytes) → IsLine s → count_byte 10 s ≡ 0
unfolding count_byte
count_byte-none [] h = refl
count_byte-none (c ∷ s) (n, h) = ground (arith, count_byte-none s h)

module _ (a b rest : Bytes) (la : IsLine a) (lb : IsLine b) (lr : IsLine rest) where
  abbrev file : Bytes
  file = a ++ (10 ∷ (b ++ (10 ∷ rest)))

  padded : (n : ℕ) → zeros n ++ file ≡ (zeros n ++ a) ++ (10 ∷ (b ++ (10 ∷ rest)))
  padded n = sym (append_assoc (zeros n) a _)

  first-IsLine : (n : ℕ) → IsLine (zeros n ++ a)
  first-IsLine n = All-append (λ c. c ≢ 10) (zeros n) a (zeros-IsLine n) la

  counted : (n : ℕ) → count_byte 10 (zeros n ++ file) ≡ 2
  unfolding count_byte
  counted n =
      ap (count_byte 10) (padded n)
      ∙ count_byte-line (zeros n ++ a) (10 ∷ (b ++ (10 ∷ rest))) (first-IsLine n)
      ∙ ground (arith, count_byte-line b (10 ∷ rest) lb, count_byte-none rest lr)

  metar_of-file : metar_of file ≡ some (b ++ (10 ∷ []))
  unfolding metar_of
  metar_of-file = rw (counted 512) (
      ap (λ s. some (first_line s))
        (ap after_line (padded 512) ∙ after_line-line (zeros 512 ++ a) _ (first-IsLine 512))
      ∙ ap (λ s. some (s ++ (10 ∷ []))) (cut_at-line b rest lb))

-- A file of two lines, whatever follows the second, is answered with its second line: the METAR with
-- its own line end. The status is 200 and none of the three parts holds a line end.
pub metar_reply-file :
    (env : Env) (callsign icao a b rest : Bytes)
    → IsLine a
    → IsLine b
    → IsLine rest
    → metar_reply env callsign icao (answered 200 (some (a ++ (10 ∷ (b ++ (10 ∷ rest))))))
      ≡ codes "$ARSERVER:" ++ (callsign ++ (codes ":METAR:" ++ ((b ++ (10 ∷ [])) ++ crlf)))
unfolding metar_reply build_metar_response_packet
metar_reply-file env callsign icao a b rest la lb lr =
    rw (metar_reply, metar_of-file a b rest la lb lr) refl
