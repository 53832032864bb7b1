-- ===== src/Agent/Docker/Decoder.antt =====
-- agent/docker.go: the error that the decoder keeps.
use homemonit.Base.{ℕ, String, Bool, true, Option, none, List, [], ◌∷◌, ◌≡◌, refl, FloatOps, All}
use homemonit.Entities.{Container}
use homemonit.Agent.Docker.State.{
  ApiInfo, Response, unreachable, unread, not_json, json, DockerManager, decode,
}
use homemonit.Agent.Docker.{update_container_stats, answered, decoded}
use homemonit.Agent.Docker.Round.{Answers, get_docker_stats, decoded_list}

decode-failed : {A : Type 0} (r : Response A) → decode r true ≡ (none, true)
unfolding decode
decode-failed unreachable = refl
decode-failed unread = refl
decode-failed not_json = refl
decode-failed (json a) = refl

module _ (matches : String → String → Bool) (o : FloatOps) where
  -- What the rounds come to, each with its cache time and its time.
  unfoldable pub rounds : List (ℕ × ℕ × Answers) → DockerManager → List (Option (List Container))
  rounds [] dm = []
  rounds ((interval, now, a) ∷ rest) dm =
      let (dm', stats) = get_docker_stats matches o interval now a dm in stats ∷ rounds rest dm'

  update-failed :
      (ctr : ApiInfo) (interval now : ℕ) (dm : DockerManager)
      → (update_container_stats o ctr interval now not_json dm).0.decoder_failed ≡ true
  unfolding update_container_stats answered decoded decode
  update-failed ctr interval now dm = refl

  get_docker_stats-failed :
      (interval now : ℕ) (a : Answers) (dm : DockerManager)
      → dm.decoder_failed ≡ true
      → get_docker_stats matches o interval now a dm ≡ (record dm { decoder_failed = true }, none)
  unfolding get_docker_stats decoded_list
  get_docker_stats-failed interval now a dm e = rw e (rw (decode-failed a.listed) refl)

  rounds-failed :
      (rs : List (ℕ × ℕ × Answers)) (dm : DockerManager)
      → dm.decoder_failed ≡ true
      → All (λ stats. stats ≡ none) (rounds rs dm)
  unfolding rounds
  rounds-failed [] dm e = tt
  rounds-failed ((interval, now, a) ∷ rest) dm e =
      rw (get_docker_stats-failed interval now a dm e)
        (refl, rounds-failed rest (record dm { decoder_failed = true }) refl)

  -- After an update of a container with an answer that is not JSON, every later round fails, whatever the
  -- engine answers from then on.
  pub update_container_stats_not_json :
      (ctr : ApiInfo) (interval now : ℕ) (rs : List (ℕ × ℕ × Answers)) (dm : DockerManager)
      → let dm' = (update_container_stats o ctr interval now not_json dm).0 in
        All (λ stats. stats ≡ none) (rounds rs dm')
  update_container_stats_not_json ctr interval now rs dm =
      rounds-failed rs (update_container_stats o ctr interval now not_json dm).0
        (update-failed ctr interval now dm)
