-- ===== src/Tool/Closes.antt =====
-- That `main` of src/cktool.c closes after its loop what it opened before it.
use camkit.Base.{
  ℕ, ◌≡◌, refl, ap, append_assoc, append-nil, Bool, true, false, not, Option, none, some, List, [],
  ◌∷◌, ◌++◌, ◌∙◌, ok, if◌then◌else◌,
}
use camkit.Base.Resources.{
  Run, Event, acquire, result, replay, replay-after, replay-released, give_back_self, give_back_ne,
  ◌>>=◌, ◌>>◌,
}
use camkit.Network.{NetParam}
use camkit.Tool.Frame.{has_bit}
use camkit.Tool.Stages.{
  Resource, outfd, caphandle, cvthandle, enchandle, pachandle, nethandle, tmshandle,
  Resource-discrete, Answers, open_if, has_server, open_network, open_file, open_parts, Opened,
  open_stages, close_if, close_stages, open_and_close,
}

false_ne : ¬ (false ≡ true)
false_ne e = cc

-- What is held after a part was opened if its bit is set.
abbrev push : (bit : Bool) → Resource → List Resource → List Resource
push true resource held = resource ∷ held
push false resource held = held

-- The next stage is opened if this one is.
abbrev and_then : Run Resource Bool → Run Resource Bool → Run Resource Bool
and_then m n = m >>= λ opened. if not opened then result false else n

-- An opening that succeeds ends with these held.
abbrev EndsWith : Run Resource Bool → List Resource → List Resource → Type 0
EndsWith m held end = m.1 ≡ true → replay Resource-discrete m.0 held ≡ ok end

open_if-EndsWith :
    (bit : Bool) (resource : Resource) (opens : Bool) (next : Run Resource Bool)
    (held end : List Resource)
    → EndsWith next (push bit resource held) end
    → EndsWith (and_then (open_if bit resource opens) next) held end
unfolding open_if replay
open_if-EndsWith true resource true next held end rest = rest
open_if-EndsWith true resource false next held end rest = λ e. absurd (false_ne e)
open_if-EndsWith false resource opens next held end rest = rest

open_network-EndsWith :
    (bit : Bool) (netp : NetParam) (opens : Bool) (held : List Resource)
    → EndsWith (open_network bit netp opens) held (push bit nethandle held)
unfolding open_network replay
open_network-EndsWith false netp opens held = λ e. refl
open_network-EndsWith true netp opens held = go (has_server netp) opens
  where
    go :
        (server opens : Bool)
        → EndsWith
            (if server then acquire nethandle opens else result false)
            held
            (nethandle ∷ held)
    go true true = λ e. refl
    go true false = λ e. absurd (false_ne e)
    go false opens = λ e. absurd (false_ne e)

replay-close_if :
    (bit : Bool) (resource : Resource) (more : List (Event Resource)) (held : List Resource)
    → replay Resource-discrete ((close_if bit resource).0 ++ more) (push bit resource held)
      ≡ replay Resource-discrete more held
unfolding close_if
replay-close_if false resource more held = refl
replay-close_if true resource more held =
    replay-released Resource-discrete resource more (resource ∷ held) held
      (give_back_self Resource-discrete resource held)

replay-close_last :
    (bit : Bool) (resource : Resource)
    → replay Resource-discrete (close_if bit resource).0 (push bit resource []) ≡ ok []
unfolding close_if replay
replay-close_last false resource = refl
replay-close_last true resource =
    replay-released Resource-discrete resource [] (resource ∷ []) []
      (give_back_self Resource-discrete resource [])

-- The same below another part that is held.
replay-close_below :
    (bit : Bool) (resource : Resource) (top : Bool) (other : Resource)
    (more : List (Event Resource)) (held : List Resource)
    → ¬ (resource ≡ other)
    → replay Resource-discrete
        ((close_if bit resource).0 ++ more)
        (push top other (push bit resource held))
      ≡ replay Resource-discrete more (push top other held)
unfolding close_if
replay-close_below bit resource false other more held ne = replay-close_if bit resource more held
replay-close_below false resource true other more held ne = refl
replay-close_below true resource true other more held ne =
    replay-released Resource-discrete resource more (other ∷ resource ∷ held) (other ∷ held) (
      give_back_ne Resource-discrete resource other (resource ∷ held) held ne
        (give_back_self Resource-discrete resource held))

replay-acquire :
    (resource : Resource) (opens : Bool) (held : List Resource)
    → replay Resource-discrete (acquire resource opens).0 held
      ≡ ok (push (acquire resource opens).1 resource held)
unfolding replay
replay-acquire resource true held = refl
replay-acquire resource false held = refl

replay-open_file :
    (outfile : Option (List ℕ)) (opens : Bool) (held : List Resource)
    → replay Resource-discrete (open_file outfile opens).0 held
      ≡ ok (push (open_file outfile opens).1 outfd held)
unfolding open_file replay
replay-open_file none opens held = refl
replay-open_file (some name) opens held = replay-acquire outfd opens held

-- What is held in the loop, below the timestamp.
abbrev opened_parts : (stage : ℕ) → List Resource → List Resource
opened_parts stage held = push (has_bit stage 8) nethandle (
    push (has_bit stage 4) pachandle
      (push (has_bit stage 2) enchandle (push (has_bit stage 1) cvthandle (caphandle ∷ held))))

open_parts-EndsWith :
    (a : Answers) (netp : NetParam) (stage : ℕ) (held : List Resource)
    → EndsWith (open_parts a netp stage) held (opened_parts stage held)
unfolding open_parts replay
open_parts-EndsWith a netp stage held =
    let with1 = push (has_bit stage 1) cvthandle (caphandle ∷ held) in
    let with2 = push (has_bit stage 2) enchandle with1 in
    let with4 = push (has_bit stage 4) pachandle with2 in
    let with8 = push (has_bit stage 8) nethandle with4 in
    capture_first a.capture_open _ with8 (
      open_if-EndsWith (has_bit stage 1) cvthandle a.convert_open _ (caphandle ∷ held) with8 (
        open_if-EndsWith (has_bit stage 2) enchandle a.encode_open _ with1 with8 (
          open_if-EndsWith (has_bit stage 4) pachandle a.pack_open _ with2 with8
            (open_network-EndsWith (has_bit stage 8) netp a.net_open with4))))
  where
    capture_first :
        (opens : Bool) (next : Run Resource Bool) (end : List Resource)
        → EndsWith next (caphandle ∷ held) end
        → EndsWith (and_then (acquire caphandle opens) next) held end
    capture_first true next end rest = rest
    capture_first false next end rest = λ e. absurd (false_ne e)

replay-close_stages :
    (stage : ℕ) (o : Opened)
    → replay Resource-discrete
        (close_stages stage o).0
        (push o.has_timestamp tmshandle (opened_parts stage (push o.has_file outfd [])))
      ≡ ok []
unfolding close_stages replay
replay-close_stages stage o =
    let top = o.has_timestamp in
    let file = push o.has_file outfd [] in
    let with1 = push (has_bit stage 1) cvthandle (caphandle ∷ file) in
    let with2 = push (has_bit stage 2) enchandle with1 in
    let with4 = push (has_bit stage 4) pachandle with2 in
    replay-close_below (has_bit stage 8) nethandle top tmshandle _ with4 (λ e. cc)
    ∙ replay-close_below (has_bit stage 4) pachandle top tmshandle _ with2 (λ e. cc)
    ∙ replay-close_below (has_bit stage 2) enchandle top tmshandle _ with1 (λ e. cc)
    ∙ replay-close_below (has_bit stage 1) cvthandle top tmshandle _ (caphandle ∷ file) (λ e. cc)
    ∙ replay-close_below true caphandle top tmshandle
        (close_if top tmshandle >> close_if o.has_file outfd).0 file (λ e. cc)
    ∙ replay-close_if top tmshandle (close_if o.has_file outfd).0 file
    ∙ replay-close_last o.has_file outfd

-- Whatever the stage is, with a file or without: when `main` gets to its loop, what it closes after
-- the loop is exactly what it has opened: the file and the timestamp, if they could be opened, and
-- each part once.
pub close_stages-open_stages :
    (a : Answers) (outfile : Option (List ℕ)) (netp : NetParam) (stage : ℕ)
    → (open_parts a netp stage).1 ≡ true
    → replay Resource-discrete (open_and_close a outfile netp stage).0 [] ≡ ok []
unfolding open_stages
close_stages-open_stages a outfile netp stage opened =
    let file = open_file outfile a.fopen in
    let parts = open_parts a netp stage in
    let stamp = acquire tmshandle a.timestamp_open in
    let o : Opened = record { has_file = file.1; has_timestamp = stamp.1 } in
    let before = push file.1 outfd [] in
    let closing = (close_stages stage o).0 in
    let in_order : ((file.0 ++ (parts.0 ++ (stamp.0 ++ []))) ++ closing)
        ≡ file.0 ++ (parts.0 ++ (stamp.0 ++ closing)) =
      append_assoc file.0 (parts.0 ++ (stamp.0 ++ [])) closing
      ∙ ap (λ es. file.0 ++ es)
          (append_assoc parts.0 (stamp.0 ++ []) closing
            ∙ ap (λ es. parts.0 ++ (es ++ closing)) (append-nil stamp.0)) in
    rw opened (
      ap (λ es. replay Resource-discrete es []) in_order
      ∙ replay-after Resource-discrete file.0 (parts.0 ++ (stamp.0 ++ closing)) [] before
          (replay-open_file outfile a.fopen [])
      ∙ replay-after Resource-discrete parts.0 (stamp.0 ++ closing) before
          (opened_parts stage before) (open_parts-EndsWith a netp stage before opened)
      ∙ replay-after Resource-discrete stamp.0 closing (opened_parts stage before)
          (push stamp.1 tmshandle (opened_parts stage before))
          (replay-acquire tmshandle a.timestamp_open (opened_parts stage before))
      ∙ replay-close_stages stage o)
