-- ===== src/Transfer/Tests.antt =====
-- A file of three bytes, in small pieces.
use inc_emulation.Base.{ℕ, ◌≡◌, refl, arith, true, ℤ, pos, some, List, [], ◌∷◌, ◌++◌}
use inc_emulation.External.{Text}
use inc_emulation.Config.{done}
use inc_emulation.Transfer.{send_file_with_length, receive_file, receive_loop}
use inc_emulation.Transfer.Whole.{receive_file-send_file_with_length}

abbrev content : Text
content = 104 ∷ 105 ∷ 10 ∷ []

abbrev sends : List ℤ
sends = pos 3 ∷ pos 1 ∷ pos 2 ∷ pos 9 ∷ pos 1 ∷ pos 1 ∷ pos 1 ∷ []

abbrev takes : List ℕ
takes = 1 ∷ 2 ∷ 9 ∷ 1 ∷ 1 ∷ 1 ∷ 1 ∷ []

receive_file-send_file_with_length_example :
    (left : List ℤ) × (left' : List ℕ) × (wire : Text) × (send_file_with_length
        (record { results = sends; wire = 9 ∷ [] })
        (some content)
      ≡ (done, record { results = left; wire = (9 ∷ []) ++ wire }))
    × (receive_file true (record { bytes = wire ++ (67 ∷ []); takes = takes })
        ≡ (some content, record { bytes = 67 ∷ []; takes = left' }))
receive_file-send_file_with_length_example =
    receive_file-send_file_with_length sends takes (9 ∷ []) content (67 ∷ []) tt
      (
        omega arith,
        (
          omega arith,
          (omega arith, (omega arith, (omega arith, (omega arith, (omega arith, tt))))),
        ),
      )
      (omega arith) (omega arith) (omega arith)

-- A connection that ends early leaves a part of the file.
receive_file-short :
    receive_file true (record { bytes = 0 ∷ 0 ∷ 0 ∷ 3 ∷ 104 ∷ []; takes = takes })
    ≡ (some (104 ∷ []), record { bytes = []; takes = 1 ∷ 1 ∷ [] })
unfolding receive_file receive_loop
receive_file-short = refl
