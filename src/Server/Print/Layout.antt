-- ===== src/Server/Print/Layout.antt =====
-- The numbers of the server's output file stand right-aligned in three columns.
use operating_systems_fa.Common.{ap, pos, ℕ, ◌++◌, ◌∙◌, ◌≡◌}
use operating_systems_fa.Common.Decimal.{decimal, decimal_ℤ}
use operating_systems_fa.Common.Decimal.Columns.{gap, gap_ℤ, percent_3d, gap-percent_3d, gap_ℤ-pos}
use operating_systems_fa.Common.Text.{codes}
use operating_systems_fa.Fifo.Transactions.{Transaction}
use operating_systems_fa.Server.{Bytes}
use operating_systems_fa.Server.Print.{tran_text, done_text}

-- The three tests of the number and the three of the work, the second of which looks at the wrong
-- variable, print what `%3d` would print, for a transaction that has just been numbered.
pub tran_text-columns :
    (t : Transaction) (w : ℕ) (name : Bytes)
    → t.work ≡ pos w
    → tran_text t.count t name
      ≡ codes " #"
        ++ (percent_3d t.count
            ++ (codes " (T" ++ (percent_3d w ++ (codes ") from " ++ (name ++ codes "\n")))))
unfolding tran_text decimal_ℤ
tran_text-columns t w name e =
    let behind = codes ") from " ++ (name ++ codes "\n") in
    ap
      (λ z.
        codes " #"
        ++ (gap t.count
            ++ (decimal t.count ++ (codes " (T" ++ (gap_ℤ z ++ (decimal_ℤ z ++ behind))))))
      e
    ∙ ap
        (λ spaces.
          codes " #"
          ++ (gap t.count
              ++ (decimal t.count ++ (codes " (T" ++ (spaces ++ (decimal w ++ behind))))))
        (gap_ℤ-pos w)
    ∙ ap (λ text. codes " #" ++ text)
        (gap-percent_3d t.count (codes " (T" ++ (gap w ++ (decimal w ++ behind))))
    ∙ ap (λ text. codes " #" ++ (percent_3d t.count ++ (codes " (T" ++ text)))
        (gap-percent_3d w behind)

pub done_text-columns :
    (count : ℕ) (name : Bytes)
    → done_text count name
      ≡ codes " #" ++ (percent_3d count ++ (codes " (Done) from " ++ (name ++ codes "\n")))
unfolding done_text
done_text-columns count name =
    ap (λ text. codes " #" ++ text)
      (gap-percent_3d count (codes " (Done) from " ++ (name ++ codes "\n")))
