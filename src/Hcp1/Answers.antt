-- ===== src/Hcp1/Answers.antt =====
-- What the older bus is answered: to whom, with what, and when not at all.
use esphome_hcpbridge.Base.{
  ℕ, ◌≤◌, ◌<◌, ◌≡◌, refl, ap, ◌∙◌, inl, inr, List, [], ◌∷◌, Option, none, some, arith, length,
  get_or, ltb, ◌==◌, if◌then◌else◌, sub32, Option-cases, not, ◌&&◌, ◌||◌,
}
use esphome_hcpbridge.State.{
  is_nothing, cmd_stale_ms, HoermannState, HcpLink, set_link, registered, enumerating, never_seen,
  same_link,
}
use esphome_hcpbridge.Hcp1Frame.{
  Hcp1Frame, hcp1_parse, hcp1_build, hcp1_next_counter, hcp1_addr_self, hcp1_addr_master,
  hcp1_cmd_scan, hcp1_cmd_status_request, hcp1_type_uap1,
}
use esphome_hcpbridge.Hcp1Frame.RoundTrip.{hcp1_parse-build}
use esphome_hcpbridge.Hcp1.{
  Hcp1Codec, on_frame, on_parsed, answer_request, answer_status, answer_scan, take_press,
  resolve_stop, command_byte, status_payload,
}

-- The byte that a status answer carries: of the press that waits, if there is one and it is fresh,
-- as it reads at the door as it stands.
abbrev pub byte_due : Hcp1Codec → ℕ → ℕ
byte_due c now =
    if is_nothing c.pending || ltb cmd_stale_ms (sub32 now c.pending_at)
    then 0
    else command_byte (resolve_stop c.state.door c.pending)

answer_status_payload :
    (c : Hcp1Codec) (now counter : ℕ)
    → (answer_status c now counter).1
      ≡ hcp1_build 16 hcp1_addr_master (hcp1_next_counter counter) (status_payload (byte_due c now))
unfolding answer_status take_press
answer_status_payload c now counter = ground arith

-- The reply to a frame, as the drive reads it back.
abbrev pub expected : Hcp1Codec → ℕ → Hcp1Frame → Option Hcp1Frame
expected c now f =
    let request = get_or f.payload 0 0 in
    let reply : List ℕ → Option Hcp1Frame = λ payload. some (record {
      address = hcp1_addr_master;
      counter = hcp1_next_counter f.counter;
      payload = payload;
    }) in
    if not (f.address == hcp1_addr_self) || length f.payload == 0
    then none
    else (if request == hcp1_cmd_scan
        then reply (hcp1_type_uap1 ∷ hcp1_addr_self ∷ [])
        else (if request == hcp1_cmd_status_request && c.addressed
            then reply (status_payload (byte_due c now))
            else none))

reply_read :
    (counter : ℕ) (payload : List ℕ)
    → length payload ≤ 13
    → hcp1_parse (hcp1_build 16 hcp1_addr_master (hcp1_next_counter counter) payload)
      ≡ some (record {
        address = hcp1_addr_master;
        counter = hcp1_next_counter counter;
        payload = payload;
      })
unfolding hcp1_next_counter
reply_read counter payload small =
    hcp1_parse-build 16 hcp1_addr_master (hcp1_next_counter counter) payload small (omega arith)
    ∙ ap (λ (n : ℕ). some (record { address = hcp1_addr_master; counter = n; payload = payload }))
        (omega arith)

-- What is on the wire, for a reply that is due: nothing at all, or the bytes of that reply.
unfoldable pub IsReply : List ℕ → Option Hcp1Frame → Type 0
IsReply out none = out ≡ []
IsReply out (some f) = hcp1_parse out ≡ some f

parsed-IsReply :
    (out : List ℕ) (due : Option Hcp1Frame)
    → hcp1_parse out ≡ due
    → (due ≡ none → out ≡ [])
    → IsReply out due
unfolding IsReply
parsed-IsReply out none parsed silent = silent refl
parsed-IsReply out (some f) parsed silent = parsed

silence_read : hcp1_parse [] ≡ none
unfolding hcp1_parse
silence_read = refl

door-set_link : (s : HoermannState) (l : HcpLink) → (set_link s l).door ≡ s.door
unfolding set_link
door-set_link s l = ground arith

answer_request_read :
    (c : Hcp1Codec) (now : ℕ) (f : Hcp1Frame)
    → f.address ≡ hcp1_addr_self
    → 0 < length f.payload
    → hcp1_parse (answer_request c now f).1 ≡ expected c now f
unfolding answer_request answer_scan
answer_request_read c now f self some_payload = ground (
  arith,
  silence_read,
  reply_read f.counter (hcp1_type_uap1 ∷ hcp1_addr_self ∷ []) (omega arith),
  reply_read f.counter (status_payload (byte_due c now)) (unfold status_payload in omega arith),
  answer_status_payload (record c { state = set_link c.state registered }) now f.counter,
  door-set_link c.state registered,
)

answer_request_silent :
    (c : Hcp1Codec) (now : ℕ) (f : Hcp1Frame)
    → f.address ≡ hcp1_addr_self
    → 0 < length f.payload
    → expected c now f ≡ none
    → (answer_request c now f).1 ≡ []
unfolding answer_request answer_scan
answer_request_silent c now f self some_payload silent = ground arith

-- The codec that has noticed a frame.
abbrev pub alive : Hcp1Codec → ℕ → Hcp1Codec
alive c now = record c {
  last_frame_at = if now == 0 then 1 else now;
  state = if same_link c.state.link never_seen then set_link c.state enumerating else c.state;
}

expected-alive :
    (c : Hcp1Codec) (now : ℕ) (f : Hcp1Frame) → expected (alive c now) now f ≡ expected c now f
expected-alive c now f = ground (arith, door-set_link c.state enumerating)

on_parsed_read :
    (c : Hcp1Codec) (now : ℕ) (f : Hcp1Frame) → hcp1_parse (on_parsed c now f).1 ≡ expected c now f
unfolding on_parsed
on_parsed_read c now f =
    ground (arith, silence_read, answer_request_read (alive c now) now f, expected-alive c now f)

on_parsed_silent :
    (c : Hcp1Codec) (now : ℕ) (f : Hcp1Frame) → expected c now f ≡ none → (on_parsed c now f).1 ≡ []
unfolding on_parsed
on_parsed_silent c now f silent =
    let same = expected-alive c now f ∙ silent in
    ground (arith, same, answer_request_silent (alive c now) now f)

-- Every frame gets the reply that the drive expects, and no other: what is written parses again,
-- is addressed to the drive and counts one further than the frame it answers. A scan is answered
-- with the accessory's type and address; a status request only once the codec has been addressed,
-- with the byte that is due; to a broadcast, another accessory's frame, an empty or unknown
-- request and what does not parse, not a single byte is written.
pub on_frame-IsReply :
    (c : Hcp1Codec) (now : ℕ) (buf : List ℕ)
    → IsReply
        (on_frame c now buf).1
        (elim (hcp1_parse buf) [ none ↦ none | some f ↦ expected c now f ])
unfolding on_frame
on_frame-IsReply c now buf = elim (Option-cases (hcp1_parse buf)) [
  | inl bad ↦ rw (bad, on_frame) (unfold IsReply in refl)
  | inr (f, good) ↦
      rw (good, on_frame)
        (parsed-IsReply (on_parsed c now f).1 (expected c now f) (on_parsed_read c now f)
          (on_parsed_silent c now f))
]
