-- ===== src/Build/Splice/Tests.antt =====
-- Runs of the copy loops over a reader of a list that hands out two bytes at a time, and a writer
-- that keeps what it gets.
use incusos_builder.Base.{◌≡◌, refl, none, some, [], ◌∷◌, arith}
use incusos_builder.Errdefs.{ok, fetch, canceled, sentinel, join, is, Sentinel-discrete}
use incusos_builder.Build.Splice.{
  splice, splice_streams, copy_n, write_chunk, write_all, discard_n, copy_all, copy_n_read_err,
}
use incusos_builder.Build.Splice.Whole.{SpliceResult, splice_lem}
use incusos_builder.Build.Samples.{
  two_bytes, remaining, two_bytes-IsReader, keeper, keeper-IsWriter,
}

splice_replaces :
    splice two_bytes keeper 9 (ok (1 ∷ 2 ∷ 3 ∷ 4 ∷ 5 ∷ 6 ∷ [])) [] [] 1 (8 ∷ 9 ∷ [])
    ≡ some (6, none, 1 ∷ 8 ∷ 9 ∷ 4 ∷ 5 ∷ 6 ∷ [])
unfolding splice splice_streams copy_n write_chunk write_all discard_n copy_all copy_n_read_err is
    Sentinel-discrete
splice_replaces = refl

splice_canceled :
    splice two_bytes keeper 9
      (ok (1 ∷ 2 ∷ 3 ∷ 4 ∷ []))
      []
      (none ∷ some (sentinel canceled) ∷ [])
      3
      []
    ≡ some (2, some (join (sentinel fetch) (sentinel canceled)), 1 ∷ 2 ∷ [])
unfolding splice splice_streams copy_n write_chunk write_all discard_n copy_all copy_n_read_err is
    Sentinel-discrete
splice_canceled = refl

splice_lem_example :
    SpliceResult two_bytes keeper remaining remaining two_bytes-IsReader keeper-IsWriter
      (ok (1 ∷ 2 ∷ 3 ∷ 4 ∷ 5 ∷ 6 ∷ []))
      []
      1
      (8 ∷ 9 ∷ [])
      (splice two_bytes keeper 9 (ok (1 ∷ 2 ∷ 3 ∷ 4 ∷ 5 ∷ 6 ∷ [])) [] [] 1 (8 ∷ 9 ∷ []))
splice_lem_example =
    splice_lem two_bytes keeper remaining remaining two_bytes-IsReader keeper-IsWriter 9
      (ok (1 ∷ 2 ∷ 3 ∷ 4 ∷ 5 ∷ 6 ∷ [])) [] [] 1 (8 ∷ 9 ∷ []) (omega arith) (omega arith)
