-- ===== src/Build/Splice.antt =====
-- internal/build/build.go, the copy loops and `splice`: the image up to the offset, the seed tar,
-- and the rest of the image behind the bytes that the tar covers. A loop takes fuel, `none` means
-- that it ran out; `Build.Splice.Loops` shows how much is enough.
pub mod Loops
pub mod CopyN
pub mod CopyAll
pub mod Discard
pub mod WriteAll
pub mod Spliced
pub mod Chains
pub mod Behind
pub mod Tar
pub mod Whole
mod Tests
use incusos_builder.Base.{
  ℕ, zero, suc, ◌+◌, ◌-◌, ◌*◌, ◌^◌, ◌≡◌, Bool, true, false, not, Option, none, some, List, [], ◌∷◌,
  length, drop, ltb, leb, ◌==◌, min, if◌then◌else◌,
}
use incusos_builder.Errdefs.{
  Error, Result, ok, err, is, eof, fetch, output, sentinel, errorf, join, plain, lit, num,
}
use incusos_builder.Io.{Reader, Writer, ReadStep, WriteStep, Polls, poll, polled}

-- 4 MiB.
abbrev pub copy_buf_size : ℕ
copy_buf_size = 4 * 2 ^ 20

-- `copyNReadErr`: `none` for a nil error.
unfoldable pub copy_n_read_err : Error → ℕ → ℕ → Option Error
copy_n_read_err rerr written n =
    if is rerr eof
    then if leb n written
      then none
      else some (
          errorf fetch
            (lit "image truncated after " ∷ num written ∷ lit " of " ∷ num n ∷ lit " bytes" ∷ []))
    else some (join (sentinel fetch) rerr)

module _ (R : Reader) (W : Writer) where
  -- The state of the reader, the writer and the context.
  pub record Streams : Type 0 where
    pub source : R.State
    pub sink : W.State
    pub polls : Polls

  -- A byte count, an error or nil, and the state in which the call left the streams.
  pub record Copied : Type 0 where
    pub written : ℕ
    pub failure : Option Error
    pub streams : Streams

  abbrev pub stopped : ℕ → Error → Streams → Option Copied
  stopped written e s = some (record { written = written; failure = some e; streams = s })

  abbrev pub finished : ℕ → Option Error → Streams → Option Copied
  finished written e s = some (record { written = written; failure = e; streams = s })

  -- The write of one chunk in the copy loops: `after` goes on with the bytes written.
  unfoldable pub write_chunk : List ℕ → ℕ → Streams → (ℕ → Streams → Option Copied) → Option Copied
  write_chunk bytes written s after =
      if ltb 0 (length bytes)
      then (let w = W.write bytes s.sink in
          let s' : Streams = record s { sink = w.next } in
          elim w.failure [
            | some werr ↦ stopped (written + w.count) (join (sentinel output) werr) s'
            | none ↦
                if not (w.count == length bytes)
                then stopped (written + w.count) (errorf output (lit "short write" ∷ [])) s'
                else after (written + w.count) s'
          ])
      else after written s

  -- The loop of `copyN`, with `written` of `n` bytes copied.
  unfoldable pub copy_n : ℕ → ℕ → ℕ → Streams → Option Copied
  copy_n zero n written s = none
  copy_n (suc fuel) n written s = elim (ltb written n) [
    | false ↦ finished written none s
    | true ↦ elim (poll s.polls) [
      | some e ↦ stopped written (join (sentinel fetch) e) (record s { polls = polled s.polls })
      | none ↦
          let r = R.read (min copy_buf_size (n - written)) s.source in
          let s' : Streams = record { source = r.next; sink = s.sink; polls = polled s.polls } in
          write_chunk r.bytes written s' λ written' s''. elim r.failure [
            | some rerr ↦ finished written' (copy_n_read_err rerr written' n) s''
            | none ↦ copy_n fuel n written' s''
          ]
    ]
  ]

  -- The loop of `copyAll`.
  unfoldable pub copy_all : ℕ → ℕ → Streams → Option Copied
  copy_all zero written s = none
  copy_all (suc fuel) written s = elim (poll s.polls) [
    | some e ↦ stopped written (join (sentinel fetch) e) (record s { polls = polled s.polls })
    | none ↦
        let r = R.read copy_buf_size s.source in
        let s' : Streams = record { source = r.next; sink = s.sink; polls = polled s.polls } in
        write_chunk r.bytes written s' λ written' s''. elim r.failure [
          | some rerr ↦
              if is rerr eof
              then finished written' none s''
              else stopped written' (join (sentinel fetch) rerr) s''
          | none ↦ copy_all fuel written' s''
        ]
  ]

  -- The loop of `discardN`; the count is that of the bytes dropped.
  unfoldable pub discard_n : ℕ → ℕ → ℕ → Streams → Option Copied
  discard_n zero n dropped s = none
  discard_n (suc fuel) n dropped s = elim (ltb dropped n) [
    | false ↦ finished dropped none s
    | true ↦ elim (poll s.polls) [
      | some e ↦ stopped dropped (join (sentinel fetch) e) (record s { polls = polled s.polls })
      | none ↦
          let r = R.read (min copy_buf_size (n - dropped)) s.source in
          let s' : Streams = record { source = r.next; sink = s.sink; polls = polled s.polls } in
          let dropped' = dropped + length r.bytes in
          elim r.failure [
            | some rerr ↦
                if is rerr eof
                then if leb n dropped'
                  then finished dropped' none s'
                  else stopped dropped'
                      (errorf fetch (lit "image truncated while skipping seed region" ∷ [])) s'
                else stopped dropped' (join (sentinel fetch) rerr) s'
            | none ↦ discard_n fuel n dropped' s'
          ]
    ]
  ]

  -- The loop of `writeAll`, with `rest` of the bytes still to write.
  unfoldable pub write_all : ℕ → List ℕ → ℕ → Streams → Option Copied
  write_all zero rest written s = none
  write_all (suc fuel) rest written s = elim (ltb 0 (length rest)) [
    | false ↦ finished written none s
    | true ↦
        let w = W.write rest s.sink in
        let s' : Streams = record s { sink = w.next } in
        elim w.failure [
          | some werr ↦ stopped (written + w.count) werr s'
          | none ↦ elim (w.count == 0) [
            | true ↦ stopped (written + w.count) (plain (lit "short write" ∷ [])) s'
            | false ↦ write_all fuel (drop w.count rest) (written + w.count) s'
          ]
        ]
  ]

  -- Goes on after a step of `splice` that returned no error, and adds up the bytes written.
  abbrev pub and_then : Option Copied → (ℕ → Streams → Option Copied) → Option Copied
  and_then none next = none
  and_then (some c) next = elim c.failure [
    | some e ↦ stopped c.written e c.streams
    | none ↦ next c.written c.streams
  ]

  -- The error of `writeAll`, wrapped as `splice` wraps it.
  abbrev pub wrap_output : Option Copied → Option Copied
  wrap_output none = none
  wrap_output (some c) = elim c.failure [
    | some e ↦ stopped c.written (join (sentinel output) e) c.streams
    | none ↦ some c
  ]

  abbrev pub add_written : ℕ → Option Copied → Option Copied
  add_written written none = none
  add_written written (some c) = some (record c { written = written + c.written })

  -- Goes on after `discardN`, whose count is not part of the result.
  abbrev pub after_skip : ℕ → Option Copied → (Streams → Option Copied) → Option Copied
  after_skip written none next = none
  after_skip written (some c) next = elim c.failure [
    | some e ↦ stopped written e c.streams
    | none ↦ next c.streams
  ]

  -- `splice`, behind the opening of the handle and of the gzip reader.
  unfoldable pub splice_streams : ℕ → ℕ → List ℕ → Streams → Option Copied
  splice_streams fuel offset tar s = and_then (copy_n fuel offset 0 s) λ written₁ s₁.
      and_then (add_written written₁ (wrap_output (write_all fuel tar 0 s₁))) λ written₂ s₂.
        after_skip written₂ (discard_n fuel (length tar) 0 s₂)
          λ s₃. add_written written₂ (copy_all fuel 0 s₃)

  -- `splice`. `opened` is the reader of the decompressed image, or the error of opening it.
  unfoldable pub splice :
      ℕ → Result R.State → W.State → Polls → ℕ → List ℕ → Option (ℕ × Option Error × W.State)
  splice fuel opened out polls offset tar = elim opened [
    | err e ↦ some (0, some (join (sentinel fetch) e), out)
    | ok source ↦
        elim (splice_streams fuel offset tar
          (record { source = source; sink = out; polls = polls })) [
            | none ↦ none
            | some c ↦ some (c.written, c.failure, c.streams.sink)
          ]
  ]
