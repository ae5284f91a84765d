-- ===== src/Dns/Query/Accepted.antt =====
-- Which bodies become promptable questions.
use qubes_snitch.Prelude.{
  ◌/◌, ◌%◌, ◌≤◌, ◌≡◌, ◌≢◌, ◌↔◌, ◌⊎◌, refl, Text, Text_eq, codes, List, [], ◌∷◌, true, false, any,
  Option, none, some, length, ltb, ◌==◌, ℕ_eq, arith, ℕ_discrete, Text-discrete, ==_ne,
}
use qubes_snitch.Prelude.Strings.{upper}
use qubes_snitch.Request.{net, Bytes, dns, Question, DnsError}
use qubes_snitch.Dns.Names.{
  is_supported, normalize_dns_name, live_dns_qname_supported, max_live_dns_body_bytes,
}
use qubes_snitch.Dns.Query.{
  WireQuestion, Message, Library, has_forbidden_flags, header_error, has_non_ascii, bad_edns,
  qtype_of, question_of, question_error, one_question, questions, checked_message, parsed, classify,
}

-- A client query of one question: no response bit, opcode and codes zero, none of the bits AA,
-- TC, RA and Z, and no records in the other sections.
pub record IsClientQuery (m : Message) : Type 0 where
  pub query : m.flags / 0x8000 % 2 ≡ 0
  pub no_rcode : m.flags % 16 ≡ 0
  pub standard : m.opcode ≡ 0
  pub plain : has_forbidden_flags m.flags ≡ false
  pub no_answer : m.answer ≡ 0
  pub no_authority : m.authority ≡ 0
  pub no_additional : m.additional ≡ 0

header_error_sound : (m : Message) → header_error m ≡ none → IsClientQuery m
unfolding header_error
header_error_sound m h = record {
  query = ground arith;
  no_rcode = ground arith;
  standard = ground arith;
  plain = ground arith;
  no_answer = ground arith;
  no_authority = ground arith;
  no_additional = ground arith;
}

header_error_complete : (m : Message) → IsClientQuery m → header_error m ≡ none
unfolding header_error ℕ_discrete
header_error_complete m c =
    rw (c.query, c.no_rcode, c.standard, c.plain, c.no_answer, c.no_authority, c.no_additional)

module _ (lib : Library) where
  -- A question of ASCII labels, of class IN, with a supported type and name; EDNS in version 0 with
  -- no flag but DO, if at all.
  pub record IsQuestion (m : Message) (w : WireQuestion) : Type 0 where
    pub ascii : any has_non_ascii w.labels ≡ false
    pub edns : bad_edns m.edns ≡ false
    pub no_rcode : m.rcode ≡ 0
    pub edns_flags : (m.ednsflags ≡ 0) ⊎ (m.ednsflags ≡ 0x8000)
    pub internet : upper (lib.class_text w.rdclass) ≡ codes "IN"
    pub supported_type : is_supported (qtype_of lib w) ≡ true
    pub supported_name :
        live_dns_qname_supported (normalize_dns_name w.name) (qtype_of lib w) ≡ true

  question_error_sound :
      (m : Message) (w : WireQuestion) → question_error lib m w ≡ none → IsQuestion m w
  unfolding question_error
  question_error_sound m w h = record {
    ascii = ground arith;
    edns = ground arith;
    no_rcode = ground arith;
    edns_flags = ground arith;
    internet = ground arith;
    supported_type = ground arith;
    supported_name = ground arith;
  }

  not_aaaa : (t : Text) → is_supported t ≡ true → (t == codes "AAAA") ≡ false
  not_aaaa t h = elim (Text-discrete t (codes "AAAA")) [
    | yes e ↦ absurd (clash (rw e at h))
    | no e ↦ ==_ne t (codes "AAAA") e
  ]
    where
      clash : is_supported (codes "AAAA") ≡ true → ⊥
      clash k = unfold Text-discrete ℕ_discrete in cc

  question_error_complete :
      (m : Message) (w : WireQuestion) → IsQuestion m w → question_error lib m w ≡ none
  unfolding question_error
  question_error_complete m w q =
      rw
        (
          q.ascii,
          q.edns,
          q.no_rcode,
          q.internet,
          not_aaaa (qtype_of lib w) q.supported_type,
          q.supported_type,
          q.supported_name,
        )
        (ground (arith, q.edns_flags))

  pub record IsPromptable (bs : Bytes) (q : Question) : Type 0 where
    pub message : Message
    pub asked : WireQuestion
    pub present : bs ≢ []
    pub small : length bs ≤ max_live_dns_body_bytes
    pub read : lib.from_wire bs ≡ some message
    pub client : IsClientQuery message
    pub single : message.question ≡ asked ∷ []
    pub question : IsQuestion message asked
    pub same : question_of lib asked ≡ q

  -- What the last part of the analysis makes of a client query.
  questions_sound :
      (m : Message) (ws : List WireQuestion) (q : Question)
      → questions lib m ws ≡ dns q
      → (w : WireQuestion) × (ws ≡ w ∷ [])
        × (question_error lib m w ≡ none)
        × (question_of lib w ≡ q)
  unfolding questions one_question
  questions_sound m [] q h = absurd (cc)
  questions_sound m (w ∷ x ∷ ws) q h = absurd (cc)
  questions_sound m (w ∷ []) q h =
      let (a, b) = asked (question_error lib m w) refl h in (w, refl, a, b)
    where
      asked :
          (e : Option DnsError)
          → question_error lib m w ≡ e
          → one_question lib e w ≡ dns q
          → (question_error lib m w ≡ none) × (question_of lib w ≡ q)
      asked none e k = (e, cc)
      asked (some x) e k = absurd (cc)

  classify-inv :
      (bs : Bytes) (q : Question)
      → classify lib bs ≡ dns q
      → (bs ≢ []) × (length bs ≤ max_live_dns_body_bytes) × (parsed lib (lib.from_wire bs) ≡ dns q)
  unfolding classify
  classify-inv [] q h = absurd (cc)
  classify-inv (b ∷ bs) q h = ground arith

  parsed-inv :
      (o : Option Message) (q : Question)
      → parsed lib o ≡ dns q
      → (m : Message) × (o ≡ some m)
        × (header_error m ≡ none)
        × (questions lib m m.question ≡ dns q)
  unfolding parsed checked_message
  parsed-inv none q h = absurd (cc)
  parsed-inv (some m) q h = let (a, b) = checked (header_error m) refl h in (m, refl, a, b)
    where
      checked :
          (e : Option DnsError)
          → header_error m ≡ e
          → checked_message lib e m ≡ dns q
          → (header_error m ≡ none) × (questions lib m m.question ≡ dns q)
      checked none e k = (e, k)
      checked (some x) e k = absurd (cc)

  classify_sound : (bs : Bytes) (q : Question) → classify lib bs ≡ dns q → IsPromptable bs q
  classify_sound bs q h =
      let (present, small, h1) = classify-inv bs q h in
      let (m, read, header, h2) = parsed-inv (lib.from_wire bs) q h1 in
      let (w, single, clean, same) = questions_sound m m.question q h2 in
      record {
        message = m;
        asked = w;
        present = present;
        small = small;
        read = read;
        client = header_error_sound m header;
        single = single;
        question = question_error_sound m w clean;
        same = same;
      }

  classify_complete : (bs : Bytes) (q : Question) → IsPromptable bs q → classify lib bs ≡ dns q
  unfolding classify parsed checked_message questions one_question
  classify_complete [] q p = absurd (p.present refl)
  classify_complete (b ∷ bs) q p = rw (
    small-test,
    p.read,
    header_error_complete p.message p.client,
    p.single,
    question_error_complete p.message p.asked p.question,
    p.same,
  )
    where
      small-test : ltb max_live_dns_body_bytes (length (b ∷ bs)) ≡ false
      small-test = ground (arith, p.small)

  -- The body of a UDP packet to port 53 becomes a promptable question exactly when it is a client
  -- query of one supported question, in at most 1232 bytes; the question is the normal form of
  -- what was asked.
  pub classify-IsPromptable_iff :
      (bs : Bytes) (q : Question) → (classify lib bs ≡ dns q) ↔ IsPromptable bs q
  classify-IsPromptable_iff bs q = (classify_sound bs q, classify_complete bs q)

  one_question_ne_net : (e : Option DnsError) (w : WireQuestion) → one_question lib e w ≢ net
  unfolding one_question
  one_question_ne_net none w h = cc
  one_question_ne_net (some e) w h = cc

  questions_ne_net : (m : Message) (ws : List WireQuestion) → questions lib m ws ≢ net
  unfolding questions
  questions_ne_net m [] h = cc
  questions_ne_net m (w ∷ []) h = one_question_ne_net (question_error lib m w) w h
  questions_ne_net m (w ∷ x ∷ ws) h = cc

  checked_message_ne_net : (e : Option DnsError) (m : Message) → checked_message lib e m ≢ net
  unfolding checked_message
  checked_message_ne_net none m h = questions_ne_net m m.question h
  checked_message_ne_net (some e) m h = cc

  parsed_ne_net : (o : Option Message) → parsed lib o ≢ net
  unfolding parsed
  parsed_ne_net none h = cc
  parsed_ne_net (some m) h = checked_message_ne_net (header_error m) m h

  pub classify_ne_net : (bs : Bytes) → classify lib bs ≢ net
  unfolding classify
  classify_ne_net [] h = cc
  classify_ne_net (b ∷ bs) h = parsed_ne_net (lib.from_wire (b ∷ bs)) (ground arith)
