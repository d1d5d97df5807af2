-- ===== src/Task/Access.antt =====
-- Who may act on a task: discord_task_auth.py.
use study_os_agent_gateway.Common.{
  ℕ, ◌≡◌, refl, ◌⊎◌, inl, inr, Bool, true, false, not, ◌&&◌, ◌||◌, List, arith, Bool-cases,
  string_eq, bool_eq, nat_eq, ◌==◌, option_eq, list_eq, member, Error, Result, raise_if, Returns,
  Returns-eq, ◌>>◌, authorization_error, ok,
}
use study_os_agent_gateway.Task.Failure.{retry_mode_eq, category_eq}
use study_os_agent_gateway.Task.State.{state_eq}
use study_os_agent_gateway.Task.Record.{Task, source_kind_eq, intent_eq, cause_eq}

pub data TaskAction : Type 0 where
  view why_failed steer stop retry continue_task forget_task : TaskAction

-- `DiscordTaskAccess`
pub record Access : Type 0 where
  pub actor_id : ℕ
  pub guild_id : ℕ
  pub channel_id : ℕ
  pub visible_channel_ids : List ℕ
  pub manageable_channel_ids : List ℕ

-- `_OWNER_ACTIONS`
abbrev pub is_owner_action : TaskAction → Bool
is_owner_action view = false
is_owner_action stop = false
is_owner_action action = true

abbrev is_stop : TaskAction → Bool
is_stop stop = true
is_stop action = false

abbrev is_view : TaskAction → Bool
is_view view = true
is_view action = false

-- `_channels_are_visible`
unfoldable pub channels_are_visible : Task → Access → Bool
channels_are_visible r a =
    member r.origin_channel_id a.visible_channel_ids
    && member r.execution_channel_id a.visible_channel_ids

-- The last three tests of `authorize`: the action is open to the actor.
unfoldable pub may_perform : Task → TaskAction → Access → Bool
may_perform r action a =
    is_view action
    || (is_owner_action action && (a.actor_id == r.owner_id))
    || (is_stop action
        && ((a.actor_id == r.owner_id) || member r.execution_channel_id a.manageable_channel_ids))

unfoldable pub authorize : Task → TaskAction → Access → Result (Unit {0})
unfolding channels_are_visible may_perform
authorize r action a = do
  raise_if (not (r.guild_id == a.guild_id)) authorization_error
  raise_if (not (channels_are_visible r a)) authorization_error
  raise_if (not ((a.channel_id == r.origin_channel_id) || (a.channel_id == r.execution_channel_id)))
      authorization_error
  raise_if (not (may_perform r action a)) authorization_error

-- The policy, written down independently of the code: what each action asks of the actor.
abbrev pub Rights : TaskAction → Task → Access → Type 0
Rights view r a = Unit
Rights stop r a =
    (a.actor_id ≡ r.owner_id) ⊎ (member r.execution_channel_id a.manageable_channel_ids ≡ true)
Rights action r a = a.actor_id ≡ r.owner_id

raise_if-ok : (c : Bool) (e : Error) → raise_if c e ≡ ok tt → c ≡ false
raise_if-ok true e h = absurd (cc h)
raise_if-ok false e h = refl

may_perform-Rights :
    (r : Task) (action : TaskAction) (a : Access)
    → may_perform r action a ≡ true
    → Rights action r a
unfolding may_perform
may_perform-Rights r view a h = tt
may_perform-Rights r stop a h = elim (Bool-cases (a.actor_id == r.owner_id)) [
  | inl own ↦ inl ((nat_eq.same_iff a.actor_id r.owner_id).0 own)
  | inr foreign ↦ inr (ground arith)
]
may_perform-Rights r why_failed a h = ground (arith, nat_eq.same_iff a.actor_id r.owner_id)
may_perform-Rights r steer a h = ground (arith, nat_eq.same_iff a.actor_id r.owner_id)
may_perform-Rights r retry a h = ground (arith, nat_eq.same_iff a.actor_id r.owner_id)
may_perform-Rights r continue_task a h = ground (arith, nat_eq.same_iff a.actor_id r.owner_id)
may_perform-Rights r forget_task a h = ground (arith, nat_eq.same_iff a.actor_id r.owner_id)

authorize-tests :
    (r : Task) (action : TaskAction) (a : Access)
    → Returns
        (λ _.
          (r.guild_id ≡ a.guild_id)
          × (channels_are_visible r a ≡ true)
          × ((a.channel_id ≡ r.origin_channel_id) ⊎ (a.channel_id ≡ r.execution_channel_id))
          × Rights action r a)
        (authorize r action a)
unfolding authorize
authorize-tests r action a = elim (Bool-cases (r.guild_id == a.guild_id)) [
  | inr guild ↦ rw guild tt
  | inl guild ↦ rw guild (elim (Bool-cases (channels_are_visible r a)) [
    | inr hidden ↦ rw hidden tt
    | inl seen ↦
        rw seen
          (elim (Bool-cases
            ((a.channel_id == r.origin_channel_id) || (a.channel_id == r.execution_channel_id))) [
              | inr outside ↦ rw outside tt
              | inl inside ↦ rw inside (elim (Bool-cases (may_perform r action a)) [
                | inr denied ↦ rw denied tt
                | inl allowed ↦ rw allowed (
                  (nat_eq.same_iff r.guild_id a.guild_id).0 guild,
                  refl,
                  elim (Bool-cases (a.channel_id == r.origin_channel_id)) [
                    | inl origin ↦ inl ((nat_eq.same_iff a.channel_id r.origin_channel_id).0 origin)
                    | inr off ↦
                        inr ((nat_eq.same_iff a.channel_id r.execution_channel_id).0 (ground arith))
                  ],
                  may_perform-Rights r action a allowed,
                )
              ])
            ])
  ])
]

-- An action that `authorize` lets pass happens in the task's guild, where both channels are visible,
-- from one of them; except for viewing, the actor is the owner or, to stop, may manage the channel.
pub authorize-Rights :
    (r : Task) (action : TaskAction) (a : Access)
    → authorize r action a ≡ ok tt
    → (r.guild_id ≡ a.guild_id)
      × (channels_are_visible r a ≡ true)
      × ((a.channel_id ≡ r.origin_channel_id) ⊎ (a.channel_id ≡ r.execution_channel_id))
      × Rights action r a
authorize-Rights r action a h =
    Returns-eq
      (λ _.
        (r.guild_id ≡ a.guild_id)
        × (channels_are_visible r a ≡ true)
        × ((a.channel_id ≡ r.origin_channel_id) ⊎ (a.channel_id ≡ r.execution_channel_id))
        × Rights action r a)
      (authorize r action a) tt (authorize-tests r action a) h
