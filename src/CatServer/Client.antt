-- ===== src/CatServer/Client.antt =====
-- `CatServer::clientHandler`: the commands that a client's bytes are cut into, and the replies.
use mathlib.Core.Option.{Option}
use mathlib.Core.List.{append_assoc, append-nil, map-append}
use ak.Base.{
  ℕ, suc, ◌*◌, ◌≤◌, ◌≡◌, refl, ap, Bool, false, List, [], ◌∷◌, ◌++◌, map, arith, ltb, if◌then◌else◌,
  length, Bool-cases, inl, inr, ◌==◌,
}
use ak.Base.Text.{Bytes}
use ak.Base.Lines.{lines, split, lines-split, split-append, split-next_line-none, split-none, put}
use ak.RadioState.{RadioStateData}
use ak.CatServer.{Reply, handle_query, unknown, max_cmd_length}

abbrev pub semicolon : ℕ
semicolon = b';'

-- `lineBuffer.size() > MAX_CMD_LENGTH * 4`
abbrev pub max_buffer : ℕ
max_buffer = max_cmd_length * 4

-- One round of the inner loop, on a command with its ';'.
unfoldable pub handle_command : Bool → Option RadioStateData → Bytes → Reply
handle_command sends radio command =
    if ltb max_cmd_length (length command)
    then record { response = unknown; forwards = false }
    else handle_query sends radio command

-- One `recv`: the commands taken off the buffer, and what stays in it.
unfoldable pub on_recv : Bytes → Bytes → List Bytes × Bytes
on_recv line_buffer received =
    let r = lines semicolon (line_buffer ++ received) in
    (map (λ l. l ++ (semicolon ∷ [])) r.0, if ltb max_buffer (length r.1) then [] else r.1)

-- The replies to one `recv`, where the radio's state is read anew for each command: other threads
-- may change it in between. `radio k` is what the k-th command of the connection reads.
unfoldable pub replies : Bool → (ℕ → Option RadioStateData) → ℕ → List Bytes → List Reply
replies sends radio k [] = []
replies sends radio k (c ∷ cs) = handle_command sends (radio k) c ∷ replies sends radio (suc k) cs

-- The commands of a connection, and the buffer at its end.
unfoldable pub recv_all : Bytes → List Bytes → List Bytes × Bytes
recv_all line_buffer [] = ([], line_buffer)
recv_all line_buffer (c ∷ cs) =
    let r = on_recv line_buffer c in let t = recv_all r.1 cs in (r.0 ++ t.0, t.1)

-- The whole text of a connection.
unfoldable pub text : List Bytes → Bytes
text [] = []
text (c ∷ cs) = c ++ text cs

-- Behind each read the handler keeps no more than four times the longest command.
pub length-on_recv : (b d : Bytes) → length (on_recv b d).1 ≤ max_buffer
unfolding on_recv
length-on_recv b d = ground arith

-- No piece of a text between semicolons is longer than the buffer may be.
abbrev pub Pieces : List Bytes → Bytes → Type 0
Pieces [] r = length r ≤ max_buffer
Pieces (l ∷ ls) r = (length l ≤ max_buffer) × Pieces ls r

abbrev pub ShortPieces : Bytes → Type 0
ShortPieces t = Pieces (split semicolon t).0 (split semicolon t).1

Pieces-append : (xs ys : List Bytes) (r : Bytes) → Pieces (xs ++ ys) r → Pieces ys r
Pieces-append [] ys r h = h
Pieces-append (x ∷ xs) ys r h = Pieces-append xs ys r h.1

-- The first piece of a text.
abbrev first : List Bytes → Bytes → ℕ
first [] r = length r
first (l ∷ ls) r = length l

first_le : (ls : List Bytes) (r : Bytes) → Pieces ls r → first ls r ≤ max_buffer
first_le [] r h = h
first_le (l ∷ ls) r h = h.0

put_nil : (c : ℕ) (p : List Bytes × Bytes) → (put c p).0 ≡ [] → p.0 ≡ []
unfolding put
put_nil c ([], r) e = refl
put_nil c (l ∷ ls, r) e = ground arith

first-put : (c : ℕ) (p : List Bytes × Bytes) → first (put c p).0 (put c p).1 ≡ suc (first p.0 p.1)
unfolding put
first-put c ([], r) = refl
first-put c (l ∷ ls, r) = refl

split-cons :
    (c : ℕ) (cs : Bytes)
    → (c == semicolon) ≡ false
    → split semicolon (c ∷ cs) ≡ put c (split semicolon cs)
unfolding split
split-cons c cs e = rw e

not_semicolon : (c : ℕ) (cs : Bytes) → (split semicolon (c ∷ cs)).0 ≡ [] → (c == semicolon) ≡ false
unfolding split
not_semicolon c cs h = elim (Bool-cases (c == semicolon)) [ inl e ↦ cc (rw e at h) | inr e ↦ e ]

-- Text with no delimiter is a prefix of the first piece of any text that it begins.
length-le-first :
    (r b : Bytes)
    → (split semicolon r).0 ≡ []
    → length r ≤ first (split semicolon (r ++ b)).0 (split semicolon (r ++ b)).1
length-le-first [] b h = omega arith
length-le-first (c ∷ cs) b h =
    let e = not_semicolon c cs h in
    let k = put_nil c (split semicolon cs) (rw (split-cons c cs e) at h) in
    rw (split-cons c (cs ++ b) e, first-put) (omega (arith, length-le-first cs b k))

split_rest : (t : Bytes) → split semicolon (split semicolon t).1 ≡ ([], (split semicolon t).1)
split_rest t = split-next_line-none semicolon _ (split-none semicolon t)

pub terminate : List Bytes → List Bytes
terminate = map (λ l. l ++ (semicolon ∷ []))

-- One read of a text whose pieces are short takes off the pieces that it completes, and keeps the
-- rest.
on_recv-split :
    (b d t : Bytes)
    → ShortPieces ((b ++ d) ++ t)
    → let r = split semicolon (b ++ d) in
      (on_recv b d ≡ (terminate r.0, r.1)) × ShortPieces (r.1 ++ t)
unfolding on_recv terminate
on_recv-split b d t h =
    let r = split semicolon (b ++ d) in
    let later = Pieces-append r.0 _ _ (rw split-append at h) in
    let small = length-le-first r.1 t (rw (split_rest (b ++ d)) refl) in
    let fits = first_le _ _ later in
    (ground (arith, lines-split semicolon (b ++ d), small, fits), later)

put_fixed :
    (c : ℕ) (p : List Bytes × Bytes) (t : Bytes)
    → (p.0 ≡ [] → p.1 ≡ t)
    → (put c p).0 ≡ []
    → (put c p).1 ≡ c ∷ t
unfolding put
put_fixed c ([], r) t h e = ap (λ x. c ∷ x) (h refl)
put_fixed c (l ∷ ls, r) t h e = ground arith

split_fixed : (t : Bytes) → (split semicolon t).0 ≡ [] → (split semicolon t).1 ≡ t
split_fixed [] e = unfold split in refl
split_fixed (c ∷ cs) e =
    let n = not_semicolon c cs e in
    rw (split-cons c cs n)
      (put_fixed c (split semicolon cs) cs (split_fixed cs) (rw (split-cons c cs n) at e))

-- From a buffer without a semicolon, the commands that a client's reads are cut into, and what is
-- left in the buffer, depend on the whole text alone and not on where the reads cut it, as long as
-- no piece between semicolons is longer than the 1024 bytes that the buffer keeps.
pub recv_all-split :
    (b : Bytes) (cs : List Bytes)
    → (split semicolon b).0 ≡ []
    → ShortPieces (b ++ text cs)
    → let r = split semicolon (b ++ text cs) in recv_all b cs ≡ (terminate r.0, r.1)
unfolding recv_all text terminate
recv_all-split b [] e h = rw (append-nil, e, split_fixed b e)
recv_all-split b (c ∷ cs) e h =
    let (now, later) = on_recv-split b c (text cs) (rw (← append_assoc b c (text cs)) at h) in
    let r : Bytes = (split semicolon (b ++ c)).1 in
    let ih = recv_all-split r cs (rw (split_rest (b ++ c))) later in
    rw (← append_assoc b c (text cs), split-append, now, ih) (unfold terminate in rw map-append)
