-- ===== src/Workspace/Exact.antt =====
-- The buffers that a `BufferWorkspace` (src/pool.rs) lends: of the very size and usage, and no longer
-- idle in the shared pool.
use gpu_info_rs.Prelude.{
  ℕ, suc, ◌%◌, ◌<◌, ◌≡◌, refl, ap, ◌⊎◌, inl, inr, Bool, true, false, ok, err, List, [], ◌∷◌, ◌++◌,
  arith, length, Bool-cases,
}
use gpu_info_rs.Pool.Lookup.{take_latest}
use gpu_info_rs.Workspace.Buffers.{BufferKey, Wgpu, Creates, pooled, key_eq}
use gpu_info_rs.Workspace.{
  BufferWorkspaceError, BufferWorkspace, Gpu, Outcome, take_buffer, obtain, key_of, refuses_upload,
  upload, write_buffer, allocation, invalid_descriptor,
}

module _ (w : Wgpu) where
  -- A buffer of the size and the usage, made now, or taken out of the pool.
  pub record Obtained (pool : Bool) (size : ℕ) (usage : w.Usages) (g : Gpu w) (b : w.Buffer)
      (g' : Gpu w) : Type 0 where
    pub sized : w.size b ≡ size
    pub used : w.usages_eq (w.usage b) usage ≡ true
    pub silent : g'.calls ≡ g.calls
    pub from :
        (g'.created ≡ suc g.created) × (g'.idle ≡ g.idle)
        ⊎ (pool ≡ true)
          × (g'.created ≡ g.created)
          × ((pre : List w.Buffer) × (post : List w.Buffer) × (g.idle.slots ≡ pre ++ b ∷ post)
              × (g'.idle.slots ≡ pre ++ post))

  -- The workspace and the device as they were, with an error.
  abbrev pub Refuses : BufferWorkspaceError → BufferWorkspace w → Gpu w → Outcome w → Type 0
  Refuses e ws g o = (o.result ≡ err e) × (o.workspace ≡ ws) × (o.gpu ≡ g)

  -- The buffer as the last that the workspace holds, and the device.
  abbrev pub Lends : w.Buffer → BufferWorkspace w → Gpu w → Outcome w → Type 0
  Lends b ws g o =
      (o.result ≡ ok b)
      × (o.workspace.held ≡ ws.held ++ b ∷ [])
      × (o.workspace.pool ≡ ws.pool)
      × (o.gpu ≡ g)

module _ (w : Wgpu) (creates : Creates w) where
  key_eq-both :
      (a b : BufferKey w.Usages)
      → key_eq w a b ≡ true
      → (a.size ≡ b.size) × (w.usages_eq a.usage b.usage ≡ true)
  key_eq-both a b e = ground arith

  obtain-Obtained :
      (pool : Bool) (key : BufferKey w.Usages) (g : Gpu w)
      → let r = obtain w pool key g in Obtained w pool key.size key.usage g r.0 r.1
  unfolding obtain take_buffer
  obtain-Obtained false key g = record {
    sized = creates.size-create g.created key;
    used = creates.usage-create g.created key;
    silent = refl;
    from = inl (refl, refl);
  }
  obtain-Obtained true key g = elim (take_latest (pooled w) g.idle key) [
    | inl (e, _) ↦
        rw (e, take_buffer)
          (record {
            sized = creates.size-create g.created key;
            used = creates.usage-create g.created key;
            silent = refl;
            from = inl (refl, refl);
          })
    | inr (pre, b, post, e, hit, _, taken) ↦
        let (sized, used) = key_eq-both ((pooled w).key b) key hit in
        rw (taken, take_buffer)
          (record {
            sized = sized;
            used = used;
            silent = refl;
            from = inr (refl, refl, (pre, post, e, refl));
          })
  ]

  -- An upload of a positive multiple of 4 bytes, with a usage that maps nothing, lends such a buffer
  -- of the length of the contents, where memory for its list is there, and queues one write, of the whole
  -- of it. Every other upload is refused and changes nothing.
  pub upload-Obtained :
      (reserved : Bool) (contents : List ℕ) (usage : w.Usages) (ws : BufferWorkspace w) (g : Gpu w)
      → let o = upload w reserved contents usage ws g in
        ((length contents ≡ 0) ⊎ (0 < length contents % 4) ⊎ (w.has_mapping usage ≡ true))
          × Refuses w invalid_descriptor ws g o
        ⊎ (reserved ≡ false) × Refuses w allocation ws g o
        ⊎ ((b : w.Buffer) × (g' : Gpu w) × Obtained w ws.pool
              (length contents)
              (w.union usage w.copy_dst)
              g
              b
              g'
            × Lends w b ws (record g' { calls = g.calls ++ write_buffer b contents ∷ [] }) o)
  unfolding upload
  upload-Obtained reserved contents usage ws g =
      elim (Bool-cases (refuses_upload w contents usage)) [
        | inl e ↦ inl (ground arith, rw (e, upload) (refl, refl, refl))
        | inr e ↦ elim (Bool-cases reserved) [
          | inr full ↦ inr (inl (full, rw (e, full, upload) (refl, refl, refl)))
          | inl room ↦
              let r = obtain w ws.pool (key_of w (length contents) usage) g in
              let got = obtain-Obtained ws.pool (key_of w (length contents) usage) g in
              let queued =
                ap (λ cs. record (r.1) { calls = cs ++ write_buffer r.0 contents ∷ [] })
                  got.silent in
              inr (inr (r.0, r.1, got, rw (e, room, upload) (refl, refl, refl, queued)))
        ]
      ]
