-- ===== src/Buffer/Tests.antt =====
-- The buffer at a small size.
use sysprg.Prelude.{[], ◌∷◌, arith}
use sysprg.Prelude.Int.{pos}
use sysprg.Buffer.{do_fill, do_get, make_buffer}
use sysprg.Buffer.Queue.{
  Represents, Fills, Gets, filled, do_fill-Fills, do_get-Gets, do_fill_lem, make_buffer-Represents,
}

none_yet : Represents (make_buffer 2) []
none_yet = make_buffer-Represents 2 (omega arith)

one : Represents (filled none_yet (pos 7)) (pos 7 ∷ [])
unfolding make_buffer
one = (do_fill_lem none_yet (pos 7) (omega arith) (λ e. cc)).1

do_fill-Fills_example : Fills 2 (pos 7) [] (do_fill (pos 7) (make_buffer 2))
unfolding make_buffer
do_fill-Fills_example = do_fill-Fills (pos 7) (λ e. cc) none_yet

do_get-Gets_example : Gets 2 (pos 7 ∷ []) (do_get (filled none_yet (pos 7)))
unfolding make_buffer
do_get-Gets_example = do_get-Gets (pos 7 ∷ []) one
