-- ===== src/Shell/Line/Join.antt =====
-- `read_input` of A1/shell379.c on a line that is words with one space between them.
use operating_systems_fa.Common.{
  Bool, List, [], arith, false, length, not, refl, some, suc, true, zero, ℕ, ◌&&◌, ◌++◌, ◌+◌, ◌<◌,
  ◌==◌, ◌∷◌, ◌≡◌, ◌≤◌,
}
use operating_systems_fa.Common.Text.{to_nul}
use operating_systems_fa.Shell.Command.{Bytes, cmd_ok, max_length}
use operating_systems_fa.Shell.Line.{
  max_args, newline, space, fill, count_args, cons_part, cut, tokens, fill_args, read_input,
}

abbrev pub join : List Bytes → Bytes
join [] = []
join (w ∷ []) = w
join (w ∷ v ∷ ws) = w ++ space ∷ join (v ∷ ws)

-- No newline and no NUL; and no space either.
abbrev pub clean : Bytes → Bool
clean [] = true
clean (c ∷ cs) = not (c == newline) && (not (c == 0) && clean cs)

abbrev pub spaceless : Bytes → Bool
spaceless [] = true
spaceless (c ∷ cs) = not (c == space) && spaceless cs

-- An argument that the shell accepts.
pub record IsWord (w : Bytes) : Type 0 where
  pub some_byte : 0 < length w
  pub short : length w ≤ max_length
  pub is_clean : clean w ≡ true
  pub is_spaceless : spaceless w ≡ true

abbrev pub AllWords : List Bytes → Type 0
AllWords [] = Unit
AllWords (w ∷ ws) = IsWord w × AllWords ws

fill-clean :
    (k : ℕ) (line : Bytes) (rest : List ℕ)
    → clean line ≡ true
    → length line < k
    → fill k (line ++ newline ∷ rest) ≡ (line, rest, false)
unfolding fill
fill-clean zero line rest ok fits = absurd (omega arith)
fill-clean (suc k) [] rest ok fits = refl
fill-clean (suc k) (c ∷ cs) rest ok fits =
    rw (fill-clean k cs rest (ground arith) (omega arith)) (ground arith)

to_nul-clean : (line : Bytes) → clean line ≡ true → to_nul line ≡ line
unfolding to_nul
to_nul-clean [] ok = refl
to_nul-clean (c ∷ cs) ok = rw (to_nul-clean cs (ground arith)) (ground arith)

clean-append : (w s : Bytes) → clean w ≡ true → clean s ≡ true → clean (w ++ space ∷ s) ≡ true
clean-append [] s a b = b
clean-append (c ∷ cs) s a b = ground (arith, clean-append cs s (ground arith) b)

clean-join : (ws : List Bytes) → AllWords ws → clean (join ws) ≡ true
clean-join [] all = refl
clean-join (w ∷ []) (is, all) = is.is_clean
clean-join (w ∷ v ∷ ws) (is, all) =
    clean-append w (join (v ∷ ws)) is.is_clean (clean-join (v ∷ ws) all)

count_args-spaceless : (w : Bytes) → spaceless w ≡ true → count_args w ≡ 1
unfolding count_args
count_args-spaceless [] ok = refl
count_args-spaceless (c ∷ cs) ok = ground (arith, count_args-spaceless cs (ground arith))

count_args-append :
    (w s : Bytes) → spaceless w ≡ true → count_args (w ++ space ∷ s) ≡ count_args s + 1
unfolding count_args
count_args-append [] s ok = refl
count_args-append (c ∷ cs) s ok = ground (arith, count_args-append cs s (ground arith))

count_args-join :
    (w : Bytes) (ws : List Bytes) → AllWords (w ∷ ws) → count_args (join (w ∷ ws)) ≡ length (w ∷ ws)
count_args-join w [] (is, all) = count_args-spaceless w is.is_spaceless
count_args-join w (v ∷ ws) (is, all) =
    omega (arith, count_args-append w (join (v ∷ ws)) is.is_spaceless, count_args-join v ws all)

cut-spaceless : (w : Bytes) → spaceless w ≡ true → cut w ≡ (w, [])
unfolding cut
cut-spaceless [] ok = refl
cut-spaceless (c ∷ cs) ok = rw (cut-spaceless cs (ground arith)) (ground arith)

cut-append : (w s : Bytes) → spaceless w ≡ true → cut (w ++ space ∷ s) ≡ (w, tokens s)
unfolding cut tokens
cut-append [] s ok = refl
cut-append (c ∷ cs) s ok = rw (cut-append cs s (ground arith)) (ground arith)

cons_part-word : (w : Bytes) (parts : List Bytes) → 0 < length w → cons_part w parts ≡ w ∷ parts
unfolding cons_part
cons_part-word [] parts lt = absurd (omega arith)
cons_part-word (c ∷ cs) parts lt = refl

tokens-join : (ws : List Bytes) → AllWords ws → tokens (join ws) ≡ ws
unfolding tokens cut cons_part
tokens-join [] all = refl
tokens-join (w ∷ []) (is, all) =
    rw (cut-spaceless w is.is_spaceless) (cons_part-word w [] is.some_byte)
tokens-join (w ∷ v ∷ ws) (is, all) =
    rw (cut-append w (join (v ∷ ws)) is.is_spaceless, tokens-join (v ∷ ws) all)
      (cons_part-word w (v ∷ ws) is.some_byte)

fill_args-words :
    (k : ℕ) (ws : List Bytes) → AllWords ws → length ws ≤ k → fill_args k ws ≡ (cmd_ok, ws)
unfolding fill_args
fill_args-words k [] all fits = refl
fill_args-words zero (w ∷ ws) all fits = absurd (omega arith)
fill_args-words (suc k) (w ∷ ws) (is, all) fits =
    let short = is.short in rw (fill_args-words k ws all (omega arith)) (ground arith)

-- One to seven words of at most 20 bytes, with one space between them and less than 99 bytes in
-- all, are read as these words and counted right; the code is CMD_OK, `buf` has the line, and the
-- input goes on behind the newline.
pub read_input-join :
    (w : Bytes) (ws : List Bytes) (rest : List ℕ)
    → AllWords (w ∷ ws)
    → length (w ∷ ws) ≤ max_args
    → length (join (w ∷ ws)) < 99
    → read_input (join (w ∷ ws) ++ newline ∷ rest)
      ≡ some (
        record { buf = join (w ∷ ws); args = w ∷ ws; num_args = length (w ∷ ws); code = cmd_ok },
        rest,
      )
unfolding read_input
read_input-join w ws rest all few fits =
    let is_clean = clean-join (w ∷ ws) all in
    rw
      (
        fill-clean 99 (join (w ∷ ws)) rest is_clean fits,
        to_nul-clean (join (w ∷ ws)) is_clean,
        tokens-join (w ∷ ws) all,
        fill_args-words max_args (w ∷ ws) all few,
        count_args-join w ws all,
      )
      refl
