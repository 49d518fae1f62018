-- ===== src/Sse/Frames.antt =====
-- The decoder gives back the payloads of the frames.
use restconf.Prelude.{
  ◌≡◌, refl, ap, ◌∙◌, ◌≢◌, inl, inr, List, [], ◌∷◌, ◌++◌, arith, ◌==◌, Bool-cases, length, drop,
  length-append, take-append, append_assoc, All, All-append, leb, ◌-◌,
}
use restconf.Text.{Bytes, has_prefix, is_empty}
use restconf.Text.Laws.{Lacks, Lacks-append, has_prefix-append}
use restconf.Address.Join.{ends_in-append}
use restconf.Sse.{frame, read_lines, send, chunk, step, loop, decode_sse, sse_data_prefix}

pub read_lines-line :
    (line rest : Bytes)
    → Lacks b'\n' line
    → read_lines (line ++ b'\n' ∷ rest) ≡ (line ++ b'\n' ∷ []) ∷ read_lines rest
unfolding read_lines
read_lines-line [] rest h = refl
read_lines-line (x ∷ line) rest h = ground (arith, read_lines-line line rest h.1)

read_lines-cons :
    (s : Bytes) → (line : Bytes) × (lines : List Bytes) × (read_lines s ≡ line ∷ lines)
unfolding read_lines
read_lines-cons [] = ([], [], refl)
read_lines-cons (x ∷ s) =
    let (line, lines, e) = read_lines-cons s in
    elim (Bool-cases (x == b'\n')) [
      | inl here ↦ (x ∷ [], read_lines s, rw here)
      | inr later ↦ (x ∷ line, lines, rw (later, e))
    ]

pub loop-cons :
    (buff line s : Bytes)
    → loop buff (line ∷ read_lines s) ≡ (step buff line).0 ++ loop (step buff line).1 (read_lines s)
unfolding loop
loop-cons buff line s = let (next, lines, e) = read_lines-cons s in rw e

chunk_lem : (line : Bytes) → chunk (line ++ b'\n' ∷ []) ≡ drop 6 line
unfolding chunk
chunk_lem line =
    let size : length (line ++ b'\n' ∷ []) - 1 ≡ length line =
      omega (arith, length-append {0} line (b'\n' ∷ [])) in
    rw (ends_in-append line b'\n' [] b'\n', size, take-append line (b'\n' ∷ []))

pub step_data :
    (buff p : Bytes) → step buff ((sse_data_prefix ++ p) ++ b'\n' ∷ []) ≡ ([], buff ++ p)
unfolding step
step_data buff p =
    ground
      (arith, has_prefix-append sse_data_prefix (p ++ b'\n' ∷ []), chunk_lem (sse_data_prefix ++ p))

pub step_blank : (buff : Bytes) → step buff (b'\n' ∷ []) ≡ (send buff, [])
unfolding step
step_blank buff = refl

pub send_lem : (p : Bytes) → p ≢ [] → send p ≡ p ∷ []
unfolding send is_empty
send_lem [] h = absurd (h refl)
send_lem (x ∷ p) h = refl

-- No event is empty, whatever arrives.
send_nonempty : (buff : Bytes) → All (λ e. e ≢ []) (send buff)
unfolding send is_empty
send_nonempty [] = tt
send_nonempty (x ∷ buff) = ground arith

step_nonempty : (buff line : Bytes) → All (λ e. e ≢ []) (step buff line).0
unfolding step
step_nonempty buff line = elim (Bool-cases (leb (length line) 1)) [
  | inl blank ↦ rw blank (send_nonempty buff)
  | inr long ↦
      rw long
        (elim (Bool-cases (has_prefix line sse_data_prefix)) [ inl e ↦ rw e tt | inr e ↦ rw e tt ])
]

loop_nonempty : (buff : Bytes) (lines : List Bytes) → All (λ e. e ≢ []) (loop buff lines)
unfolding loop
loop_nonempty buff [] = tt
loop_nonempty buff (line ∷ []) =
    All-append (λ e. e ≢ []) _ _ (step_nonempty buff line) (send_nonempty (step buff line).1)
loop_nonempty buff (line ∷ next ∷ lines) =
    All-append (λ e. e ≢ []) _ _ (step_nonempty buff line)
      (loop_nonempty (step buff line).1 (next ∷ lines))

decode_sse_nonempty : (stream : Bytes) → All (λ e. e ≢ []) (decode_sse stream)
unfolding decode_sse
decode_sse_nonempty stream = loop_nonempty [] (read_lines stream)

-- A frame in front of a stream is one event in front of the stream's events.
pub decode_sse-frame :
    (p rest : Bytes) → Lacks b'\n' p → p ≢ [] → decode_sse (frame p ++ rest) ≡ p ∷ decode_sse rest
unfolding decode_sse frame
decode_sse-frame p rest h k =
    let data_line : Bytes = sse_data_prefix ++ p in
    let plain : Lacks b'\n' data_line = Lacks-append b'\n' sse_data_prefix p (omega arith) h in
    let shape : frame p ++ rest ≡ data_line ++ b'\n' ∷ b'\n' ∷ rest = simp append_assoc in
    ap decode_sse shape
    ∙ ap (loop []) (read_lines-line data_line (b'\n' ∷ rest) plain)
    ∙ loop-cons [] (data_line ++ b'\n' ∷ []) (b'\n' ∷ rest)
    ∙ ap (λ (r : List Bytes × Bytes). r.0 ++ loop r.1 (read_lines (b'\n' ∷ rest))) (step_data [] p)
    ∙ ap (loop p) (read_lines-line [] rest tt)
    ∙ loop-cons p (b'\n' ∷ []) rest
    ∙ ap (λ (r : List Bytes × Bytes). r.0 ++ loop r.1 (read_lines rest)) (step_blank p)
    ∙ ap (λ (e : List Bytes). e ++ loop [] (read_lines rest)) (send_lem p k)

pub decode_sse-nil : decode_sse [] ≡ []
unfolding decode_sse is_empty
decode_sse-nil = refl

-- The stream of a subscription: one frame for each payload.
abbrev pub stream_of : List Bytes → Bytes
stream_of [] = []
stream_of (p ∷ ps) = frame p ++ stream_of ps

abbrev pub IsPayload : Bytes → Type 0
IsPayload p = Lacks b'\n' p × (p ≢ [])

-- The client decodes exactly the payloads that the server framed, in their order, if none is empty
-- or holds a line feed.
pub decode_sse-stream_of : (ps : List Bytes) → All IsPayload ps → decode_sse (stream_of ps) ≡ ps
decode_sse-stream_of [] h = decode_sse-nil
decode_sse-stream_of (p ∷ ps) h =
    decode_sse-frame p (stream_of ps) h.0.0 h.0.1 ∙ ap (◌∷◌ p) (decode_sse-stream_of ps h.1)
