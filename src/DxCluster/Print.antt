-- ===== src/DxCluster/Print.antt =====
-- A spot as the node prints it, read back by `parseSpot`.
use mathlib.Core.Option
use ak.Base.{
  ℕ, suc, ◌+◌, ◌-◌, ◌%◌, ◌^◌, ◌≤◌, ◌<◌, ◌≡◌, ap, ap₂, ◌∙◌, true, false, some, [], ◌∷◌, ◌++◌, ltb,
  length, take, arith,
}
use ak.Base.Int.{ℤ}
use ak.Base.Text.{Bytes, codes, equal}
use ak.Base.Doubles.{Doubles, to_hz}
use ak.DxCluster.Spot.{find, trim_end, comment_of, with_word, with_khz, with_colon, parse_spot}
use ak.DxCluster.Text.{
  lacks, no_space, ends_well, starts_well, blanks, time, AllDigits, take_front, drop_past,
  find-lacks, trim_end-whole, word-blanks, comment_of_lem,
}

-- The line of a spot, with the frequency as text.
abbrev pub print_spot : Bytes → Bytes → ℕ → Bytes → ℕ → Bytes → ℕ → Bytes → Bytes
print_spot spotter khz i callsign j comment k at =
    codes "DX de "
    ++ (spotter
        ++ (b':'
            ∷ (khz
                ++ (b' '
                    ∷ (blanks i
                        ++ (callsign ++ (b' ' ∷ (blanks j ++ (comment ++ (blanks k ++ at))))))))))

module _ (d : Doubles) (now : ℤ) (f : d.Double) (khz : Bytes) where
  -- `>>` reads the text of the frequency in front of a blank.
  abbrev pub Reads : Type 0
  Reads = (more : Bytes) → d.read (khz ++ (b' ' ∷ more)) ≡ some (f, b' ' ∷ more)

  with_khz-print :
      (i x : ℕ) (w spotter more : Bytes)
      → Reads
      → no_space (x ∷ w) ≡ true
      → with_khz d now spotter (d.read (khz ++ (b' ' ∷ (blanks i ++ ((x ∷ w) ++ (b' ' ∷ more))))))
        ≡ some (record {
          callsign = x ∷ w;
          frequency_hz = to_hz d f;
          spotter = spotter;
          comment = comment_of (b' ' ∷ more);
          timestamp = now;
        })
  unfolding with_khz with_word
  with_khz-print i x w spotter more r n =
      ap (with_khz d now spotter) (r _)
      ∙ ap (with_word d now spotter f) (word-blanks (suc i) x w more n)

with_colon-print :
    (d : Doubles) (now : ℤ) (spotter rest : Bytes)
    → length spotter < 2 ^ 63
    → ends_well spotter ≡ true
    → with_colon d now
        (codes "DX de " ++ (spotter ++ (b':' ∷ rest)))
        (some (suc (suc (suc (suc (suc (suc (length spotter))))))))
      ≡ with_khz d now spotter (d.read rest)
unfolding with_colon
with_colon-print d now spotter rest h e =
    ap₂ (λ n t. with_khz d now (trim_end (take n (spotter ++ (b':' ∷ rest)))) (d.read t)) count
      (drop_past spotter b':' rest)
    ∙ ap (λ t. with_khz d now (trim_end t) (d.read rest)) (take_front spotter (b':' ∷ rest))
    ∙ ap (λ t. with_khz d now t (d.read rest)) (trim_end-whole spotter e)
  where
    count :
        (2 ^ 64 + suc (suc (suc (suc (suc (suc (length spotter)))))) - 6) % 2 ^ 64 ≡ length spotter
    count = omega arith

-- The colon is found behind the spotter.
find-print :
    (spotter rest : Bytes)
    → lacks b':' spotter ≡ true
    → find b':' 5 (codes "DX de " ++ (spotter ++ (b':' ∷ rest)))
      ≡ some (suc (suc (suc (suc (suc (suc (length spotter)))))))
unfolding find
find-print spotter rest l =
    ap
      (λ o.
        Option.map suc
          (Option.map suc (Option.map suc (Option.map suc (Option.map suc (Option.map suc o))))))
      (find-lacks b':' spotter rest l)

-- A line that passes the two tests.
parse_spot-long :
    (d : Doubles) (now : ℤ) (t : Bytes)
    → 26 ≤ length (codes "DX de " ++ t)
    → parse_spot d now (codes "DX de " ++ t)
      ≡ with_colon d now (codes "DX de " ++ t) (find b':' 5 (codes "DX de " ++ t))
unfolding parse_spot equal
parse_spot-long d now t h = rw long
  where
    long : ltb (length (codes "DX de " ++ t)) 26 ≡ false
    long = ground arith

-- What `parseSpot` is expected to read: any spot whose fields do not hold what separates them.
pub record IsPrintable (spotter callsign comment : Bytes) (a b c d : ℕ) : Type 0 where
  pub no_colon : lacks b':' spotter ≡ true
  pub spotter_ends : ends_well spotter ≡ true
  pub spotter_size : length spotter < 2 ^ 63
  pub callsign_word : no_space callsign ≡ true
  pub callsign_some : 1 ≤ length callsign
  pub comment_starts : starts_well comment ≡ true
  pub comment_ends : ends_well comment ≡ true
  pub one_line : lacks b'\n' comment ≡ true
  pub digits : AllDigits a b c d

-- A spot in the format `DX de <spotter>: <freq> <callsign> <comment> <time>Z`, of at least 26 bytes,
-- whose fields do not hold what separates them, is read back exactly: the spotter, the callsign
-- and the comment, whatever numbers of blanks pad the columns, and the frequency that `>>` reads
-- from its text. The time of the line is cut off.
pub parse_spot-print :
    (d : Doubles) (now : ℤ) (f : d.Double) (spotter khz callsign comment : Bytes)
    (i j k t₁ t₂ t₃ t₄ : ℕ)
    → Reads d now f khz
    → IsPrintable spotter callsign comment t₁ t₂ t₃ t₄
    → 26 ≤ length (print_spot spotter khz i callsign j comment k (time t₁ t₂ t₃ t₄))
    → parse_spot d now (print_spot spotter khz i callsign j comment k (time t₁ t₂ t₃ t₄))
      ≡ some (record {
        callsign = callsign;
        frequency_hz = to_hz d f;
        spotter = spotter;
        comment = comment;
        timestamp = now;
      })
unfolding parse_spot
parse_spot-print d now f spotter khz [] comment i j k t₁ t₂ t₃ t₄ r p n = absurd (ground arith)
parse_spot-print d now f spotter khz (x ∷ w) comment i j k t₁ t₂ t₃ t₄ r p n =
    let more = blanks j ++ (comment ++ (blanks k ++ time t₁ t₂ t₃ t₄)) in
    let rest = khz ++ (b' ' ∷ (blanks i ++ ((x ∷ w) ++ (b' ' ∷ more)))) in
    parse_spot-long d now (spotter ++ (b':' ∷ rest)) n
    ∙ ap (with_colon d now (codes "DX de " ++ (spotter ++ (b':' ∷ rest))))
        (find-print spotter rest p.no_colon)
    ∙ with_colon-print d now spotter rest p.spotter_size p.spotter_ends
    ∙ with_khz-print d now f khz i x w spotter more r p.callsign_word
    ∙ ap
        (λ t. some (record {
          callsign = x ∷ w;
          frequency_hz = to_hz d f;
          spotter = spotter;
          comment = t;
          timestamp = now;
        }))
        (comment_of_lem t₁ t₂ t₃ t₄ p.digits (suc j) k comment p.comment_starts p.comment_ends
          p.one_line)
