-- ===== src/Membership/Notice.antt =====
-- A member hears of another one: `processNodeAddDeletePayload` from end to end.
use mathlib.Core.List.{List}
use cs425_mp.Common.{
  ℕ, ◌-◌, lt→ltb, suc, ◌≡◌, refl, sym, ◌∙◌, ap, subst, true, false, Option, none, some, [], ◌∷◌,
  Bytes, ◌==◌, if◌then◌else◌, ◌>>=◌, ltb, arith, Bool-cases, inl, inr, length,
}
use cs425_mp.Wire.{has_flag, msg_heartbeat}
use cs425_mp.Ring.{Ptr, Heap, Topology, id_ip}
use cs425_mp.Ring.Links.{mem, Chain-first, Chain-last, mem-last}
use cs425_mp.Ring.Walk.{IsRing, Members, search_exact, load-live}
use cs425_mp.Ring.Add.{IsLive_of_check}
use cs425_mp.Ring.Unlink.{mem-first, next-mem, prev-mem}
use cs425_mp.Ring.Remove.{DistinctIps, parted, remove_from_list-Members}
use cs425_mp.Membership.{
  Process, AddDelete, add_payload, delete_payload, watch, change_nodes, refresh, forward,
  process_add_delete,
}

next-IsRing :
    (h : Heap) (p : Ptr) (ps : List Ptr) (v : Ptr)
    → IsRing h p ps
    → mem v (p ∷ ps) ≡ true
    → mem (h.next v) (p ∷ ps) ≡ true
next-IsRing h p ps v r i = elim (Bool-cases (v == p)) [
  | inl hit ↦
      let e : v ≡ p = ground arith in
      subst (λ a. mem a (p ∷ ps) ≡ true) (sym (ap h.next e ∙ Chain-first h p ps p r.links))
        (mem-first p ps)
  | inr miss ↦ next-mem h p ps v p r.links (ground arith)
]

pub prev-IsRing :
    (h : Heap) (p : Ptr) (ps : List Ptr) (v : Ptr)
    → IsRing h p ps
    → mem v (p ∷ ps) ≡ true
    → mem (h.prev v) (p ∷ ps) ≡ true
prev-IsRing h p ps v r i = elim (Bool-cases (v == p)) [
  | inl hit ↦
      let e : v ≡ p = ground arith in
      subst (λ a. mem a (p ∷ ps) ≡ true) (sym (ap h.prev e ∙ Chain-last h p ps p r.links))
        (mem-last p ps)
  | inr miss ↦ prev-mem h p ps v p r.links (ground arith)
]

-- A member watches its predecessor, and knows its successor's address.
refresh-Members :
    (s : Process) (p : Ptr) (ps : List Ptr)
    → Members s.topology (p ∷ ps)
    → mem s.myself (p ∷ ps) ≡ true
    → refresh s
      ≡ some (
        watch (s.topology.heap.ip (s.topology.heap.prev s.myself)) s,
        some (s.topology.heap.ip (s.topology.heap.next s.myself)),
      )
unfolding refresh
refresh-Members s p ps m i =
    let h : Heap = s.topology.heap in
    let here = m.1.alive s.myself i in
    let next = m.1.alive (h.next s.myself) (next-IsRing h p ps s.myself m.1 i) in
    let prev = m.1.alive (h.prev s.myself) (prev-IsRing h p ps s.myself m.1 i) in
    rw
      (
        (IsLive_of_check h s.myself here).ne_null,
        load-live h h.next s.myself here,
        load-live h h.ip (h.next s.myself) next,
        load-live h h.prev s.myself here,
        load-live h h.ip (h.prev s.myself) prev,
      )
      refl

forward-Members :
    (payload : AddDelete) (t : Topology) (p : Ptr) (ps : List Ptr) (ip : Bytes)
    → Members t (p ∷ ps)
    → forward payload t (some ip)
      ≡ some (
          if ltb 0 payload.ttl
          then some (ip, msg_heartbeat, record payload { ttl = payload.ttl - 1 })
          else none)
unfolding forward
forward-Members payload t p ps ip m = elim (Bool-cases (ltb 0 payload.ttl)) [
  | inl more ↦ rw (more, m.0, lt→ltb 0 (suc (length ps)) (omega arith)) refl
  | inr last ↦ rw last refl
]

-- The end of the handler, after its changes.
abbrev finish : AddDelete → Process → Option (Process × Option (Bytes × ℕ × AddDelete))
finish payload s = do (s2, ip) ← refresh s; out ← forward payload s2.topology ip; some (s2, out)

-- What it does at a process that is a member.
finish-Members :
    (payload : AddDelete) (s : Process) (ps : List Ptr)
    → Members s.topology ps
    → mem s.myself ps ≡ true
    → finish payload s
      ≡ some (
        watch (s.topology.heap.ip (s.topology.heap.prev s.myself)) s,
        if ltb 0 payload.ttl
            then some (
              s.topology.heap.ip (s.topology.heap.next s.myself),
              msg_heartbeat,
              record payload { ttl = payload.ttl - 1 },
            )
            else none,
      )
unfolding watch
finish-Members payload s [] m i = cc
finish-Members payload s (p ∷ ps) m i =
    rw
      (
        refresh-Members s p ps m i,
        forward-Members payload s.topology p ps (s.topology.heap.ip (s.topology.heap.next s.myself))
            m,
      )
      refl

-- A process that is a member of a well-formed ring with distinct addresses takes notice of a
-- deletion, not its own: it runs without a fault to a well-formed ring without the first member whose
-- 16 address bytes match the first ID, if there is one; it watches its predecessor in that ring; and
-- while the message has rounds left, it sends it on, with one round less, to its successor there, but
-- as a message of type MSG_HEARTBEAT.
pub process_add_delete-Members :
    (fresh : List Ptr) (payload : AddDelete) (id : Bytes) (ids : List Bytes) (s : Process)
    (ps : List Ptr)
    → Members s.topology ps
    → DistinctIps s.topology.heap ps
    → payload.ids ≡ id ∷ ids
    → has_flag payload.flags delete_payload ≡ true
    → has_flag payload.flags add_payload ≡ false
    → mem s.myself (parted (search_exact s.topology.heap ps (id_ip id)) ps) ≡ true
    → (t : Topology) × (process_add_delete fresh payload s
        ≡ some (
          watch (t.heap.ip (t.heap.prev s.myself)) (record s { topology = t }),
          if ltb 0 payload.ttl
              then some (
                t.heap.ip (t.heap.next s.myself),
                msg_heartbeat,
                record payload { ttl = payload.ttl - 1 },
              )
              else none,
        ))
      × Members t (parted (search_exact s.topology.heap ps (id_ip id)) ps)
unfolding process_add_delete
process_add_delete-Members fresh payload id ids s ps m apart first deletes adds stays =
    let (t, runs, left) = remove_from_list-Members s.topology ps id m apart in
    let change : change_nodes fresh payload s ≡ some (record s { topology = t }) =
      unfold change_nodes in rw (deletes, first, runs) refl in
    (
      t,
      rw (adds, change)
          (finish-Members payload (record s { topology = t })
            (parted (search_exact s.topology.heap ps (id_ip id)) ps) left stays),
      left,
    )
