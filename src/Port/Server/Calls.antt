-- ===== src/Port/Server/Calls.antt =====
-- The functions of a server port: registering, removing and calling them.
use module_oriented_software.Common.{
  ◌==◌, ◌≡◌, ◌<◌, ◌∙◌, none, some, List, [], ◌∷◌, arith, length, String, Option-cases, inl, inr,
  if◌then◌else◌, lt→ltb, ==_refl,
}
use module_oriented_software.Common.OrderedMap.{
  IsOrdered, lookup, insert, erase, lookup-insert, lookup-erase_if, insert-OrderedFrom,
}
use module_oriented_software.EnvUtils.{clear, call_exists, call_missing}
use module_oriented_software.Sha256.{Hash}
use module_oriented_software.Hook
use module_oriented_software.Sequence.{Base}
use module_oriented_software.Port.{report, status_of}
use module_oriented_software.Port.Server.{Server, register, remove, create_response, register_all}

module _ {A R W : Type 0} where
  register_new :
      (id : Hash) (f : Base A R W) (p : Server A R W) (w : W)
      → lookup id p.calls ≡ none
      → register id f p w ≡ (record p { calls = insert id f p.calls }, w, status_of p.port clear)
  unfolding register
  register_new id f p w e = ground arith

  register_known :
      (id : Hash) (f g : Base A R W) (p : Server A R W) (w : W)
      → lookup id p.calls ≡ some g
      → register id f p w ≡ (p, report p.port call_exists w, status_of p.port call_exists)
  unfolding register
  register_known id f g p w e = ground arith

  remove_known :
      (id : Hash) (g : Base A R W) (p : Server A R W) (w : W)
      → lookup id p.calls ≡ some g
      → remove id p w ≡ (record p { calls = erase id p.calls }, w, status_of p.port clear)
  unfolding remove
  remove_known id g p w e = ground arith

  remove_unknown :
      (id : Hash) (p : Server A R W) (w : W)
      → lookup id p.calls ≡ none
      → remove id p w ≡ (p, report p.port call_missing w, status_of p.port call_missing)
  unfolding remove
  remove_unknown id p w e = ground arith

  create_response_unknown :
      (id : Hash) (args : A) (p : Server A R W) (w : W)
      → length p.response_buffer < p.response_queue_size
      → lookup id p.calls ≡ none
      → create_response id args p w
        ≡ (p, report p.port call_missing w, status_of p.port call_missing)
  unfolding create_response
  create_response_unknown id args p w room e = rw (lt→ltb _ _ room, e, create_response)

  -- In an ordered map of functions, registering keeps every function that is there, that of the same
  -- name included, and stores the new one under a name that had none.
  lookup-register :
      (id j : Hash) (f : Base A R W) (p : Server A R W) (w : W)
      → IsOrdered p.calls
      → lookup j (register id f p w).0.calls
        ≡ elim (lookup j p.calls) [ some g ↦ some g | none ↦ if id == j then some f else none ]
  lookup-register id j f p w o = elim (Option-cases (lookup id p.calls)) [
    | inl e ↦ rw (register_new id f p w e) (ground (arith, lookup-insert 0 id j f p.calls))
    | inr (g, e) ↦ rw (register_known id f g p w e) (ground arith)
  ]

  register-IsOrdered :
      (id : Hash) (f : Base A R W) (p : Server A R W) (w : W)
      → IsOrdered p.calls
      → IsOrdered (register id f p w).0.calls
  unfolding register
  register-IsOrdered id f p w o = ground (arith, insert-OrderedFrom 0 id f p.calls)

  -- In an ordered map, a function that was registered stays through any further registrations under any names.
  register_all_keeps :
      (compute : String → Hash) (fs : List (String × Base A R W)) (p : Server A R W) (w : W)
      (id : Hash) (g : Base A R W)
      → IsOrdered p.calls
      → lookup id p.calls ≡ some g
      → lookup id (register_all compute fs p w).0.calls ≡ some g
  unfolding register_all
  register_all_keeps compute [] p w id g o e = e
  register_all_keeps compute ((name, f) ∷ fs) p w id g o e =
      let r = register (compute name) f p w in
      register_all_keeps compute fs r.0 r.1 id g (register-IsOrdered (compute name) f p w o)
        (lookup-register (compute name) id f p w o ∙ (rw e))

  -- Once removed from an ordered map, a name is not called: with room for a response, the call is refused
  -- as missing, the handler is told, and nothing runs.
  create_response-remove :
      (id : Hash) (args : A) (p : Server A R W) (w : W)
      → IsOrdered p.calls
      → length p.response_buffer < p.response_queue_size
      → let (p', w', s) = remove id p w in
        create_response id args p' w'
        ≡ (p', report p'.port call_missing w', status_of p'.port call_missing)
  create_response-remove id args p w o room = elim (Option-cases (lookup id p.calls)) [
    | inl e ↦
        rw (remove_unknown id p w e)
          (create_response_unknown id args p (report p.port call_missing w) room e)
    | inr (g, e) ↦ rw (remove_known id g p w e) (
        create_response_unknown id args (record p { calls = erase id p.calls }) w room
          (lookup-erase_if id id p.calls o ∙ (rw (==_refl id))))
  ]
