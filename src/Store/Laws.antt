-- ===== src/Store/Laws.antt =====
-- What was saved is what is loaded, and a configuration that was cached is the one of the next run.
use ks_upgrade.Base.{
  Bool, [], some, ◌↔◌, refl, String, ◌≡◌, ap, sym, ◌∙◌, true, if◌then◌else◌, Error, Result, ok, err,
  is_backup_key_not_found, ok-injective,
}
use ks_upgrade.Base.Action.{pure, raise, lift, continue, on_result, ◌>>=◌, ◌>>◌, bind-eq-ok}
use ks_upgrade.Storage.{Bytes, Storage, Keeps}
use ks_upgrade.Base.Dict
use ks_upgrade.Base.Dict.{Dict}
use ks_upgrade.Store.{
  RestConfig, ClientConfig, ClientContext, ClientCluster, AuthInfo,
  create_kube_config_file_for_rest_config, Codec, load, save, save_raw, load_raw, RestClient,
  kube_config_backup_key, fresh_config, cached_config, get_rest_config,
}

module _ {W : Type 0} (s : Storage W) (keeps : Keeps s) where
  -- If the storage keeps what was put, and the decoder reads what `Marshal` wrote, an object
  -- that was saved is what a load of its key gives.
  pub load-save :
      {A : Type 0} (codec : Codec A) (key : String) (object : A) (u w : W)
      → ((raw : Bytes) → codec.marshal object ≡ ok raw → codec.decode raw ≡ ok object)
      → save s codec key object u ≡ (ok tt, w)
      → load s codec key w ≡ (ok object, w)
  unfolding load save
  load-save {A} codec key object u w decodes h =
      let (raw, v, marshalled, stored) =
        bind-eq-ok (lift (codec.marshal object)) (λ raw. s.put key raw) h in
      ap (λ (p : Result Bytes × W). continue p.0 (λ raw. lift (codec.decode raw)) p.1)
        (keeps key raw v w stored)
      ∙ ap (λ (r : Result A). (r, w)) (decodes raw (ap (λ (p : Result Bytes × W). p.0) marshalled))

-- What is relied on of client-go: a kubeconfig file that was written is read as the configuration of
-- its current context, if its server is a plain URL, of https and without a query, and it has a
-- certificate exactly if it has a key. What a file does not say is `defaults`.
pub record KubeConfigLaws {W Raw : Type 0} (rest : RestClient W Raw) (defaults : Raw)
    (is_plain : String → Bool) : Type 0 where
  pub reads :
      (file : ClientConfig) (context : ClientContext) (cluster : ClientCluster) (user : AuthInfo)
      (raw : Bytes)
      → rest.write file ≡ ok raw
      → Dict.lookup file.current_context file.contexts ≡ some context
      → Dict.lookup context.cluster file.clusters ≡ some cluster
      → Dict.lookup context.auth_info file.auth_infos ≡ some user
      → is_plain cluster.server ≡ true
      → (user.client_certificate_data ≡ []) ↔ (user.client_key_data ≡ [])
      → rest.from_kube_config raw
        ≡ ok (record {
          host = cluster.server;
          ca_data = cluster.certificate_authority_data;
          cert_data = user.client_certificate_data;
          key_data = user.client_key_data;
          bearer_token = user.token;
          others = defaults;
        })

module _ {W Raw : Type 0} (s : Storage W) (keeps : Keeps s) (rest : RestClient W Raw) where
  fresh_config-ok :
      (v w : W) (config : RestConfig Raw)
      → fresh_config s rest v ≡ (ok config, w)
      → (raw : Bytes) × (v' : W) × (rest.write (create_kube_config_file_for_rest_config config)
          ≡ ok raw)
        × (s.put kube_config_backup_key raw v' ≡ (ok tt, w))
  unfolding fresh_config save_raw
  fresh_config-ok v w config h =
      let (c, v1, got, h1) =
        bind-eq-ok rest.get_config
          (λ c. rest.load_tls_files c >>= λ c'.
            lift (rest.write (create_kube_config_file_for_rest_config c')) >>= λ raw.
            save_raw s kube_config_backup_key raw >> pure c')
          h in
      let (c', v2, loaded, h2) =
        bind-eq-ok (rest.load_tls_files c)
          (λ c'. lift (rest.write (create_kube_config_file_for_rest_config c')) >>= λ raw.
            save_raw s kube_config_backup_key raw >> pure c')
          h1 in
      let (raw, v3, written, h3) =
        bind-eq-ok (lift (rest.write (create_kube_config_file_for_rest_config c')))
          (λ raw. save_raw s kube_config_backup_key raw >> pure c') h2 in
      let (x, v4, put, h4) = bind-eq-ok (s.put kube_config_backup_key raw) (λ _. pure c') h3 in
      let same = ok-injective (ap (λ (p : Result (RestConfig Raw) × W). p.0) h4) in
      (
        raw,
        v3,
        ap (λ c. rest.write (create_kube_config_file_for_rest_config c)) (sym same)
            ∙ ap (λ (p : Result Bytes × W). p.0) written,
        put ∙ ap (λ (p : Result (RestConfig Raw) × W). (ok tt, p.1)) h4,
      )

  -- If the storage keeps what was put, and a kubeconfig file that was written is read as the
  -- configuration of its current context, then where no cache was found and a run obtained a
  -- configuration with a plain URL, and with a certificate exactly if it has a key, the next run
  -- obtains from the cache its host, authority, certificate, key and token, and changes nothing; all
  -- else of the configuration is lost, and has its default.
  pub get_rest_config-cached :
      (defaults : Raw) (is_plain : String → Bool) (laws : KubeConfigLaws rest defaults is_plain)
      (u v w : W) (config : RestConfig Raw) (e : Error)
      → is_plain config.host ≡ true
      → (config.cert_data ≡ []) ↔ (config.key_data ≡ [])
      → s.get kube_config_backup_key u ≡ (err e, v)
      → is_backup_key_not_found e ≡ true
      → get_rest_config s rest u ≡ (ok config, w)
      → get_rest_config s rest w ≡ (ok (record config { others = defaults }), w)
  unfolding get_rest_config load_raw fresh_config cached_config save_raw
      create_kube_config_file_for_rest_config Dict.lookup
  get_rest_config-cached defaults is_plain laws u v w config e plain paired missed not_found h =
      let fresh = rw (missed, not_found) at h in
      let (raw, v', written, put) = fresh_config-ok v w config fresh in
      ap
        (λ (p : Result Bytes × W).
          on_result p.0 (cached_config s rest)
            (λ e. if is_backup_key_not_found e then fresh_config s rest else raise e) p.1)
        (keeps kube_config_backup_key raw v' w put)
      ∙ ap (λ (r : Result (RestConfig Raw)). on_result r pure (λ e. rest.get_config) w)
          (laws.reads file context cluster user raw written refl refl refl plain paired)
    where
      context : ClientContext
      context = record { cluster = "kubernetes"; auth_info = "kubernetes-admin" }

      cluster : ClientCluster
      cluster = record { server = config.host; certificate_authority_data = config.ca_data }

      user : AuthInfo
      user = record {
        client_certificate_data = config.cert_data;
        client_key_data = config.key_data;
        token = config.bearer_token;
      }

      file : ClientConfig
      file = create_kube_config_file_for_rest_config config
